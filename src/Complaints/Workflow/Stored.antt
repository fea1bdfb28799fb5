-- ===== src/Complaints/Workflow/Stored.antt =====
-- What an escalation and a resolution leave in the database.
use ski_tech_backend.Base.{
  ℕ, ◌+◌, ◌≤◌, ◌<◌, ◌≡◌, refl, ap, arith, ◌∙◌, Bool, true, false, not, ◌||◌, Option, some, inl, inr,
  ◌⊎◌, List, [], ◌∷◌, ◌++◌, ◌==◌, ==_refl, ltb, any, first, select, select-append, length,
  select_of_any-false, first_overwritten, Bool-cases, String, str_eq_iff,
}
use ski_tech_backend.Runtime.{Uuid}
use ski_tech_backend.Text.{joined, text_length}
use ski_tech_backend.Session.{Session, Result, ok, err, data_error, multiple_results_found}
use ski_tech_backend.Models.{InboxItem, Db}
use ski_tech_backend.Models.Complaints.{Complaint, ComplaintStatus, ComplaintTables}
use ski_tech_backend.Inbox.{
  ItemFields, title_max, is_open_item, is_ambiguous, create_inbox_item, new_item,
}
use ski_tech_backend.Inbox.Laws.{none_open_after_mark}
use ski_tech_backend.Complaints.{
  ComplaintService, ComplaintResolve, complaint_key, is_live, comment_data, resolved_as,
  new_comment, counted_comment, find_complaint, save_complaint, add_comment_row, resolve_complaint,
  add_comment,
}
use ski_tech_backend.Complaints.Workflow.{
  role_text, escalated_for, escalation_item, escalation_text, is_title_refused, announce_escalation,
  log_escalation, escalate_complaint,
}

length_of_any :
    (p : InboxItem → Bool) (xs : List InboxItem) → any p xs ≡ true → 1 ≤ length (select p xs)
length_of_any p [] h = cc
length_of_any p (x ∷ xs) h = elim (Bool-cases (p x)) [
  | inl e ↦ rw e (omega arith)
  | inr e ↦ rw e (length_of_any p xs (rw e at h))
]

-- A created item is the only open one of its key where there was one at most.
create_single :
    (f : ItemFields) (items : List InboxItem)
    → length (select (is_open_item f.tenant_id f.source_record_id f.item_type) items) ≤ 1
    → length (
        select
          (is_open_item f.tenant_id f.source_record_id f.item_type)
          (create_inbox_item f items))
      ≡ 1
unfolding create_inbox_item new_item
create_single f items few =
    let p = is_open_item f.tenant_id f.source_record_id f.item_type in
    elim (Bool-cases (any p items)) [
      | inl e ↦ let some_there = length_of_any p items e in rw e (omega (arith, few, some_there))
      | inr e ↦
          let clear = select_of_any-false p items e in
          let type_same = (str_eq_iff f.item_type f.item_type).1 refl in
          rw e (
            rw select-append
              (rw (clear, ==_refl f.tenant_id, ==_refl f.source_record_id, type_same) refl))
    ]

abbrev pub open_escalations : ComplaintService → Complaint → List InboxItem → List InboxItem
open_escalations service c = select (is_open_item service.tenant_id c.id "complaint_escalated")

abbrev pub title_length : Complaint → ℕ
title_length c = text_length (joined ("Complaint escalated: " ∷ c.title ∷ []))

one_or_fits :
    (service : ComplaintService) (c : Complaint) (items : List InboxItem)
    → length (open_escalations service c items) ≤ 1
    → (any (is_open_item service.tenant_id c.id "complaint_escalated") items
        || not (ltb 255 (title_length c)))
      ≡ true
    → (length (open_escalations service c items) ≡ 1) ⊎ (title_length c ≤ 255)
one_or_fits service c items few h =
    let p = is_open_item service.tenant_id c.id "complaint_escalated" in
    elim (Bool-cases (any p items)) [
      | inl e ↦ let there = length_of_any p items e in inl (omega (arith, few, there))
      | inr e ↦ inr (ground arith)
    ]

module _ {Float : Type 0} where
  pub find_saved :
      (id tenant_id : Uuid) (g c : Complaint) (d : Db Float)
      → find_complaint id tenant_id d ≡ some c
      → g.id ≡ c.id
      → is_live id tenant_id g ≡ is_live id tenant_id c
      → find_complaint id tenant_id (save_complaint g d) ≡ some g
  unfolding find_complaint save_complaint
  find_saved id tenant_id g c d found same_id same =
      first_overwritten complaint_key (is_live id tenant_id) g d.complaint_log.complaints found same
        same_id

  find_same_log :
      (id tenant_id : Uuid) (items : List InboxItem) (d : Db Float)
      → find_complaint id tenant_id (record d { inbox_items = items })
        ≡ find_complaint id tenant_id d
  unfolding find_complaint
  find_same_log id tenant_id items d = refl

  -- A resolution of a complaint that is found returns the complaint with the given status and
  -- notes, the caller as its resolver and the time, and nothing else changed. It commits it so,
  -- and leaves no open inbox item of its escalation.
  pub resolve_complaint_stored :
      (now : ℕ) (service : ComplaintService) (id : Uuid) (data_in : ComplaintResolve)
      (s : Session (Db Float)) (c : Complaint)
      → find_complaint id service.tenant_id s.work ≡ some c
      → (stored : Complaint) × (stored ≡ record c {
        status = data_in.status;
        resolution_notes = some data_in.resolution_notes;
        resolved_by = some service.user_id;
        resolved_at = some now;
      })
        × ((resolve_complaint now service id data_in s).0 ≡ ok (some stored))
        × (find_complaint id service.tenant_id
              (resolve_complaint now service id data_in s).1.committed
            ≡ some stored)
        × (any
              (is_open_item service.tenant_id c.id "complaint_escalated")
              (resolve_complaint now service id data_in s).1.committed.inbox_items
            ≡ false)
  unfolding resolve_complaint resolved_as save_complaint
  resolve_complaint_stored now service id data_in s c e =
      let g = resolved_as service.user_id now data_in c in
      let saved = find_saved id service.tenant_id g c s.work e refl refl in
      let clear =
        none_open_after_mark service.tenant_id c.id "complaint_escalated" s.work.inbox_items in
      let kept = find_same_log id service.tenant_id _ (save_complaint g s.work) in
      rw e (g, refl, refl, kept ∙ saved, clear)

  pub comment_data_ok :
      (text : String) (s : Session (Db Float))
      → (text_length text == 0 || ltb 2000 (text_length text)) ≡ false
      → comment_data text true s ≡ (ok (record { comment = text; is_internal = true }), s)
  unfolding comment_data
  comment_data_ok text s fits = rw fits refl

  -- The database with a comment on a complaint.
  abbrev pub commented :
      Uuid → ℕ → ComplaintService → Uuid → Complaint → String → Db Float → Db Float
  commented comment_id now service id c text d = save_complaint (counted_comment c) (
      add_comment_row
        (new_comment comment_id now service id (record { comment = text; is_internal = true })) d)

  abbrev pub settled : Db Float → Session (Db Float)
  settled d = record { committed = d; work = d }

  log_escalation_eq :
      (comment_id item_id : Uuid) (now : ℕ) (service : ComplaintService) (id : Uuid)
      (reason : String) (c : Complaint) (s : Session (Db Float))
      → find_complaint id service.tenant_id s.work ≡ some c
      → (text_length (escalation_text service reason) == 0
          || ltb 2000 (text_length (escalation_text service reason)))
        ≡ false
      → log_escalation comment_id item_id now service id reason c s
        ≡ announce_escalation item_id service reason c (
            settled (commented comment_id now service id c (escalation_text service reason) s.work))
  unfolding log_escalation add_comment
  log_escalation_eq comment_id item_id now service id reason c s found fits =
      rw (comment_data_ok (escalation_text service reason) s fits) (rw found refl)

  pub find_commented :
      (comment_id : Uuid) (now : ℕ) (service : ComplaintService) (id : Uuid) (c : Complaint)
      (text : String) (d : Db Float)
      → find_complaint id service.tenant_id d ≡ some c
      → find_complaint id service.tenant_id (commented comment_id now service id c text d)
        ≡ some (counted_comment c)
  unfolding find_complaint save_complaint add_comment_row counted_comment
  find_commented comment_id now service id c text d found =
      first_overwritten complaint_key (is_live id service.tenant_id) (counted_comment c)
        d.complaint_log.complaints found refl refl

  find_by_log :
      (id tenant_id : Uuid) (d e : Db Float)
      → d.complaint_log ≡ e.complaint_log
      → find_complaint id tenant_id d ≡ find_complaint id tenant_id e
  unfolding find_complaint
  find_by_log id tenant_id d e same =
      ap (λ (log : ComplaintTables). first (select (is_live id tenant_id) log.complaints)) same

  -- How an escalation of a complaint ends, after its commit, for the inbox items before it: an
  -- open item is there, unless several were already, or the new one has too long a title.
  abbrev pub EndsWith :
      ComplaintService
      → Complaint
      → List InboxItem
      → Result (Option Complaint) × Session (Db Float)
      → Type 0
  EndsWith service c items r =
      (length (open_escalations service c items) ≤ 1)
        × ((length (open_escalations service c items) ≡ 1) ⊎ (title_length c ≤ 255))
        × (length (open_escalations service c r.1.committed.inbox_items) ≡ 1)
      ⊎ (1 < length (open_escalations service c items))
        × (r.0 ≡ err multiple_results_found)
        × (r.1.committed.inbox_items ≡ items)
      ⊎ (length (open_escalations service c items) ≡ 0)
        × (255 < title_length c)
        × (r.0 ≡ err data_error)
        × (r.1.committed.inbox_items ≡ items)

  announce_escalation_ends :
      (item_id : Uuid) (service : ComplaintService) (reason : String) (c : Complaint) (d : Db Float)
      → ((announce_escalation item_id service reason c (settled d)).1.committed.complaint_log
          ≡ d.complaint_log)
        × EndsWith service c d.inbox_items
            (announce_escalation item_id service reason c (settled d))
  unfolding announce_escalation is_ambiguous is_title_refused title_max escalation_item
  announce_escalation_ends item_id service reason c d =
      let item = escalation_item item_id service.tenant_id c reason in
      let p = is_open_item service.tenant_id c.id "complaint_escalated" in
      elim (Bool-cases (is_ambiguous item d.inbox_items)) [
        | inl a ↦ rw a (refl, inr (inl (ground arith, refl, refl)))
        | inr a ↦
            let few : length (select p d.inbox_items) ≤ 1 = ground arith in
            elim (Bool-cases (is_title_refused item d.inbox_items)) [
              | inl e ↦
                  let clear = select_of_any-false p d.inbox_items (ground arith) in
                  rw (a, e) (refl, inr (inr (rw clear refl, ground arith, refl, refl)))
              | inr e ↦
                  let one = create_single item d.inbox_items few in
                  rw (a, e)
                    (refl, inl (few, one_or_fits service c d.inbox_items few (ground arith), one))
            ]
      ]

  -- An escalation that finds its complaint, and whose reason makes a comment of an allowed length,
  -- commits the complaint as escalated, with the reason in its notes, one more comment counted and
  -- nothing else changed, and adds the internal comment that names the caller's role and the
  -- reason. Where at most one item of the escalation is open in the inbox, and one is or the title
  -- of a new one fits its column, exactly one is open afterwards. Otherwise the request fails after
  -- that commit, with the error of the query that finds several items or of the title that does not
  -- fit, and the inbox stays as it was.
  pub escalate_complaint_stored :
      (comment_id item_id : Uuid) (now : ℕ) (service : ComplaintService) (id : Uuid)
      (reason : String) (s : Session (Db Float)) (c : Complaint)
      → find_complaint id service.tenant_id s.work ≡ some c
      → (text_length (escalation_text service reason) == 0
          || ltb 2000 (text_length (escalation_text service reason)))
        ≡ false
      → (find_complaint id service.tenant_id
            (escalate_complaint comment_id item_id now service id reason s).1.committed
          ≡ some (record c {
            status = ComplaintStatus.escalated;
            resolution_notes = some (joined ("Escalated: " ∷ reason ∷ []));
            comment_count = c.comment_count + 1;
          }))
        × ((escalate_complaint comment_id item_id now service id reason
              s).1.committed.complaint_log.comments
            ≡ s.work.complaint_log.comments
              ++ record {
                id = comment_id;
                tenant_id = service.tenant_id;
                complaint_id = id;
                user_id = some service.user_id;
                comment =
                    joined ("Escalated by " ∷ role_text service.user_role ∷ ": " ∷ reason ∷ []);
                is_internal = true;
                attachment_count = 0;
                created_at = now;
              }
                ∷ [])
        × EndsWith service c s.work.inbox_items
            (escalate_complaint comment_id item_id now service id reason s)
  unfolding escalate_complaint save_complaint add_comment_row escalated_for counted_comment
      new_comment escalation_text
  escalate_complaint_stored comment_id item_id now service id reason s c found fits =
      let g = escalated_for reason c in
      let saved = find_saved id service.tenant_id g c s.work found refl refl in
      let d =
        commented comment_id now service id g (escalation_text service reason)
          (save_complaint g s.work) in
      let run : escalate_complaint comment_id item_id now service id reason s
          ≡ announce_escalation item_id service reason g (settled d) =
        rw found (
          log_escalation_eq comment_id item_id now service id reason g
            (record s { work = save_complaint g s.work }) saved fits) in
      let (same_log, ends) = announce_escalation_ends item_id service reason g d in
      let stored =
        find_commented comment_id now service id g (escalation_text service reason)
          (save_complaint g s.work) saved in
      rw run (
        find_by_log id service.tenant_id _ d same_log ∙ stored,
        ap (λ (log : ComplaintTables). log.comments) same_log,
        ends,
      )
