-- ===== src/Models/Inbox.antt =====
-- app/models/inbox.py.
use ski_tech_backend.Base.{Bool, true, false, Option, String}
use ski_tech_backend.Runtime.{Uuid, Instant}

pub data InboxStatus : Type 0 where
  unread seen actioned dismissed : InboxStatus

-- `status.in_(["unread", "read"])`
abbrev pub is_open_status : InboxStatus → Bool
is_open_status unread = true
is_open_status seen = true
is_open_status _ = false

pub record InboxItem : Type 0 where
  pub id : Uuid
  pub tenant_id : Uuid
  pub property_id : Option Uuid
  pub source_module : String
  pub item_type : String
  pub source_record_id : Uuid
  pub recipient_user_id : Option Uuid
  pub recipient_role : Option String
  pub title : String
  pub body : String
  pub status : InboxStatus
  pub read_at : Option Instant
