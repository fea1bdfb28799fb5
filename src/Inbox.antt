-- ===== src/Inbox.antt =====
-- app/services/inbox_service.py: the inbox items that other services write.
pub mod Laws
pub mod OpenSet
use Prim.Native.Nat.{zero, suc}
use ski_tech_backend.Base.{
  ℕ, Bool, not, get_or, truthy, ◌||◌, ◌&&◌, Option, none, some, List, [], ◌∷◌, ◌++◌, String, ◌==◌,
  str_eq, if◌then◌else◌, any, ltb, length, select,
}
use ski_tech_backend.Runtime.{Uuid}
use ski_tech_backend.Text.{prefix_of}
use ski_tech_backend.Models.{InboxItem, unread, actioned, is_open_status}

-- The keyword arguments of `create_inbox_item`, and the id that the new row is given.
pub record ItemFields : Type 0 where
  pub new_id : Uuid
  pub tenant_id : Uuid
  pub property_id : Option Uuid
  pub source_module : String
  pub item_type : String
  pub source_record_id : Uuid
  pub recipient_user_id : Option Uuid
  pub recipient_role : Option String
  pub title : String
  pub body : String

-- An open item of a tenant for a source record and a type.
abbrev pub is_open_item : Uuid → Uuid → String → InboxItem → Bool
is_open_item tenant_id source_record_id item_type i =
    i.tenant_id == tenant_id
    && (i.source_record_id == source_record_id
        && (str_eq i.item_type item_type && is_open_status i.status))

unfoldable pub new_item : ItemFields → InboxItem
new_item f = record {
  id = f.new_id;
  tenant_id = f.tenant_id;
  property_id = f.property_id;
  source_module = f.source_module;
  item_type = f.item_type;
  source_record_id = f.source_record_id;
  recipient_user_id = f.recipient_user_id;
  recipient_role = f.recipient_role;
  title = f.title;
  body = f.body;
  status = unread;
  read_at = none;
}

-- `title[:TITLE_MAX]`, by characters.
unfoldable pub title_max : ℕ
title_max = 255

-- Several open items have the key, so that `scalar_one_or_none` raises instead of answering.
unfoldable pub is_ambiguous : ItemFields → List InboxItem → Bool
is_ambiguous f items =
    ltb 1 (length (select (is_open_item f.tenant_id f.source_record_id f.item_type) items))

-- What the call leaves where it returns. Where several open items have the key it raises and
-- writes nothing: `notify` swallows that, and an escalation tests `is_ambiguous` first.
unfoldable pub create_inbox_item : ItemFields → List InboxItem → List InboxItem
unfolding new_item
create_inbox_item f items =
    if any (is_open_item f.tenant_id f.source_record_id f.item_type) items
    then items
    else items ++ new_item f ∷ []

-- The write of a notification, or nothing where its savepoint was rolled back.
unfoldable pub notify : Bool → ItemFields → List InboxItem → List InboxItem
unfolding create_inbox_item prefix_of title_max
notify write_fails f items =
    if write_fails
    then items
    else create_inbox_item (record f { title = prefix_of title_max f.title }) items

-- `if item_type:`, so that an empty type filters no more than none does.
unfoldable pub is_of_type : Option String → String → Bool
is_of_type item_type y = not (truthy item_type) || str_eq y (get_or item_type "")

-- Every open item of the source record, of one type where a type is given.
unfoldable pub matches_source : Uuid → Uuid → Option String → InboxItem → Bool
unfolding is_of_type
matches_source tenant_id source_record_id item_type i =
    i.tenant_id == tenant_id
    && (i.source_record_id == source_record_id
        && (is_of_type item_type i.item_type && is_open_status i.status))

unfoldable pub mark_inbox_items_actioned :
    Uuid → Uuid → Option String → List InboxItem → List InboxItem
unfolding matches_source
mark_inbox_items_actioned tenant_id source_record_id item_type [] = []
mark_inbox_items_actioned tenant_id source_record_id item_type (i ∷ items) =
    (if matches_source tenant_id source_record_id item_type i
      then record i { status = actioned }
      else i)
    ∷ mark_inbox_items_actioned tenant_id source_record_id item_type items
