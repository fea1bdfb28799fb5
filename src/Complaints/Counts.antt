-- ===== src/Complaints/Counts.antt =====
-- The counter of a complaint's comments, which is stored beside them.
pub mod Rows
use ski_tech_backend.Base.{
  ℕ, ◌+◌, ◌≡◌, refl, sym, ap, ◌∙◌, arith, Bool, true, false, some, inl, inr, All, List, [], ◌∷◌,
  ◌++◌, append-nil, ◌==◌, ==_refl, ==→eq, select, select-append, length, length-append, update_row,
  All-update_row, All-found, ◌||◌, ltb, Bool-cases, Option-cases, String,
}
use ski_tech_backend.Runtime.{Uuid}
use ski_tech_backend.Text.{text_length}
use ski_tech_backend.Session.{Session}
use ski_tech_backend.Session.Keeps.{Keeps, bind-Keeps, gets-Keeps}
use ski_tech_backend.Models.{Db}
use ski_tech_backend.Models.Complaints.{Complaint, ComplaintComment}
use ski_tech_backend.Complaints.{
  ComplaintService, ComplaintCreate, ComplaintUpdate, ComplaintResolve, ComplaintCommentCreate,
  new_complaint, patched, resolved_as, new_comment, counted_comment, complaint_key, is_live,
  is_comment_of, row_of, comment_data, find_complaint, add_complaint, save_complaint,
  add_comment_row, create_complaint, update_complaint, resolve_complaint, add_comment,
}
use ski_tech_backend.Complaints.Counts.Rows.{
  comments_of, IsCountOf, comments_of_snoc, counted_rows, All-snoc,
}
use ski_tech_backend.Inbox.{is_ambiguous}
use ski_tech_backend.Complaints.Workflow.{
  ComplaintAssignmentCreate, escalated_for, assigned_complaint, announce_escalation,
  escalation_text, assignment_text, log_escalation, log_assignment, write_assignment,
  with_assignments, is_user, is_title_refused, escalation_item, escalate_complaint,
  assign_complaint,
}

module _ {Float : Type 0} where
  -- Every complaint's counter is the number of its comments.
  abbrev pub HasCommentCounts : Db Float → Type 0
  HasCommentCounts d = All (IsCountOf d.complaint_log.comments) d.complaint_log.complaints

  abbrev pub HasCounts : Session (Db Float) → Type 0
  HasCounts s = HasCommentCounts s.committed × HasCommentCounts s.work

  save_keeps :
      (g c : Complaint) (d : Db Float)
      → g.id ≡ c.id
      → g.comment_count ≡ c.comment_count
      → IsCountOf d.complaint_log.comments c
      → HasCommentCounts d
      → HasCommentCounts (save_complaint g d)
  unfolding save_complaint
  save_keeps g c d same_id same_count hc h =
      All-update_row (IsCountOf d.complaint_log.comments) complaint_key g.id g
        d.complaint_log.complaints
        (same_count ∙ hc ∙ ap (λ i. comments_of i d.complaint_log.comments) (sym same_id)) h

  found_counted :
      (id tenant_id : Uuid) (d : Db Float) {c : Complaint}
      → HasCommentCounts d
      → find_complaint id tenant_id d ≡ some c
      → IsCountOf d.complaint_log.comments c × (c.id ≡ id)
  unfolding find_complaint
  found_counted id tenant_id d {c} h e =
      let (hc, live) =
        All-found (IsCountOf d.complaint_log.comments) (is_live id tenant_id)
          d.complaint_log.complaints h e in
      (hc, ==→eq c.id id (ground (arith, live)))

  back_keeps : (s : Session (Db Float)) → HasCounts s → HasCounts (record s { work = s.committed })
  back_keeps s h = (h.0, h.0)

  add_comment-Keeps :
      (new_id : Uuid) (now : ℕ) (service : ComplaintService) (id : Uuid)
      (data_in : ComplaintCommentCreate)
      → Keeps HasCounts (add_comment new_id now service id data_in)
  unfolding add_comment save_complaint add_comment_row counted_comment new_comment
  add_comment-Keeps new_id now service id data_in = record {
    at = λ s h. elim (Option-cases (find_complaint id service.tenant_id s.work)) [
      | inl e ↦ rw e h
      | inr (c, e) ↦
          let (hc, same) = found_counted id service.tenant_id s.work h.1 e in
          let m = new_comment new_id now service id data_in in
          let ms = s.work.complaint_log.comments in
          let one = comments_of_snoc c.id ms m (rw same (==_refl id)) in
          let kept =
            counted_rows ms m (counted_comment c) s.work.complaint_log.complaints (sym same)
              (ap (λ n. n + 1) hc ∙ sym one) h.1 in
          rw e (kept, kept)
    ];
  }

  create_complaint-HasCounts :
      (new_id : Uuid) (now : ℕ) (service : ComplaintService) (data_in : ComplaintCreate)
      (s : Session (Db Float))
      → comments_of new_id s.work.complaint_log.comments ≡ 0
      → HasCounts s
      → HasCounts (create_complaint new_id now service data_in s).1
  unfolding create_complaint add_complaint new_complaint
  create_complaint-HasCounts new_id now service data_in s fresh h =
      elim (Option-cases service.property_id) [
        | inl e ↦ rw e (h.0, h.0)
        | inr (p, e) ↦
            let kept =
              All-snoc (IsCountOf s.work.complaint_log.comments) s.work.complaint_log.complaints
                (new_complaint new_id now service p data_in) h.1 (sym fresh) in
            rw e (kept, kept)
      ]

  update_complaint-Keeps :
      (service : ComplaintService) (id : Uuid) (data_in : ComplaintUpdate)
      → Keeps HasCounts (update_complaint service id data_in)
  unfolding update_complaint patched
  update_complaint-Keeps service id data_in = record {
    at = λ s h. elim (Option-cases (find_complaint id service.tenant_id s.work)) [
      | inl e ↦ rw e h
      | inr (c, e) ↦
          let kept =
            save_keeps (patched data_in c) c s.work refl refl
              (found_counted id service.tenant_id s.work h.1 e).0 h.1 in
          rw e (kept, kept)
    ];
  }

  resolve_complaint-Keeps :
      (now : ℕ) (service : ComplaintService) (id : Uuid) (data_in : ComplaintResolve)
      → Keeps HasCounts (resolve_complaint now service id data_in)
  unfolding resolve_complaint resolved_as
  resolve_complaint-Keeps now service id data_in = record {
    at = λ s h. elim (Option-cases (find_complaint id service.tenant_id s.work)) [
      | inl e ↦ rw e h
      | inr (c, e) ↦
          let kept =
            save_keeps (resolved_as service.user_id now data_in c) c s.work refl refl
              (found_counted id service.tenant_id s.work h.1 e).0 h.1 in
          rw e (kept, kept)
    ];
  }

  comment_data-Keeps : (text : String) (b : Bool) → Keeps HasCounts (comment_data text b)
  unfolding comment_data
  comment_data-Keeps text b = record {
    at = λ s h. elim (Bool-cases (text_length text == 0 || ltb 2000 (text_length text))) [
      | inl e ↦ rw e h
      | inr e ↦ rw e h
    ];
  }

  announce_escalation-Keeps :
      (item_id : Uuid) (service : ComplaintService) (reason : String) (c : Complaint)
      → Keeps HasCounts (announce_escalation item_id service reason c)
  unfolding announce_escalation
  announce_escalation-Keeps item_id service reason c = record {
    at = λ s h.
        let item = escalation_item item_id service.tenant_id c reason in
        elim (Bool-cases (is_ambiguous item s.work.inbox_items)) [
          | inl a ↦ rw a (h.0, h.0)
          | inr a ↦ elim (Bool-cases (is_title_refused item s.work.inbox_items)) [
            | inl e ↦ rw (a, e) (h.0, h.0)
            | inr e ↦ rw (a, e) (h.1, h.1)
          ]
        ];
  }

  log_escalation-Keeps :
      (comment_id item_id : Uuid) (now : ℕ) (service : ComplaintService) (id : Uuid)
      (reason : String) (c : Complaint)
      → Keeps HasCounts (log_escalation comment_id item_id now service id reason c)
  unfolding log_escalation
  log_escalation-Keeps comment_id item_id now service id reason c =
      bind-Keeps (comment_data-Keeps (escalation_text service reason) true) (λ data_in.
        bind-Keeps (add_comment-Keeps comment_id now service id data_in)
          (λ _. announce_escalation-Keeps item_id service reason c))

  log_assignment-Keeps :
      (show_uuid : Uuid → String) (comment_id : Uuid) (now : ℕ) (service : ComplaintService)
      (id : Uuid) (data_in : ComplaintAssignmentCreate) (c : Complaint)
      → Keeps HasCounts (log_assignment show_uuid comment_id now service id data_in c)
  unfolding log_assignment
  log_assignment-Keeps show_uuid comment_id now service id data_in c =
      bind-Keeps (comment_data-Keeps (assignment_text show_uuid data_in) true) (λ text.
        bind-Keeps (add_comment-Keeps comment_id now service id text)
          (λ _. gets-Keeps (row_of c.id)))

  escalate_complaint-Keeps :
      (comment_id item_id : Uuid) (now : ℕ) (service : ComplaintService) (id : Uuid)
      (reason : String)
      → Keeps HasCounts (escalate_complaint comment_id item_id now service id reason)
  unfolding escalate_complaint escalated_for
  escalate_complaint-Keeps comment_id item_id now service id reason = record {
    at = λ s h. elim (Option-cases (find_complaint id service.tenant_id s.work)) [
      | inl e ↦ rw e h
      | inr (c, e) ↦
          let kept =
            save_keeps (escalated_for reason c) c s.work refl refl
              (found_counted id service.tenant_id s.work h.1 e).0 h.1 in
          rw e (
            (log_escalation-Keeps comment_id item_id now service id reason
                (escalated_for reason c)).at
              (record s { work = save_complaint (escalated_for reason c) s.work }) (h.0, kept))
    ];
  }

  assign_complaint-Keeps :
      (show_uuid : Uuid → String) (new_id comment_id : Uuid) (now : ℕ) (service : ComplaintService)
      (id : Uuid) (data_in : ComplaintAssignmentCreate)
      → Keeps HasCounts (assign_complaint show_uuid new_id comment_id now service id data_in)
  unfolding assign_complaint assigned_complaint
  assign_complaint-Keeps show_uuid new_id comment_id now service id data_in = record {
    at = λ s h. elim (Option-cases (find_complaint id service.tenant_id s.work)) [
      | inl e ↦ rw e h
      | inr (c, e) ↦
          let d =
            with_assignments
              (write_assignment new_id now service id data_in s.work.complaint_log.assignments)
              s.work in
          let g = assigned_complaint service.user_id now data_in.assigned_to c in
          let kept : HasCommentCounts (save_complaint g d) =
            save_keeps g c d refl refl (found_counted id service.tenant_id s.work h.1 e).0 h.1 in
          elim (Bool-cases (is_user data_in.assigned_to (save_complaint g d))) [
            | inl known ↦
                rw (e, known)
                  ((log_assignment-Keeps show_uuid comment_id now service id data_in c).at
                    (record { committed = save_complaint g d; work = save_complaint g d })
                    (kept, kept))
            | inr unknown ↦ rw (e, unknown) (h.0, h.0)
          ]
    ];
  }

  module _ (service : ComplaintService) (now : ℕ) (id : Uuid) (s : Session (Db Float)) where
    -- Where every complaint's comment_count is the number of its comments, in the committed
    -- database and in the session's work, it is so after each operation, whatever it returns or
    -- raises: creating a complaint, where no comment refers to its new id, updating, resolving,
    -- escalating and assigning one, and adding a comment.
    pub complaint_operations-HasCounts :
        (new_id item_id comment_id : Uuid) (show_uuid : Uuid → String) (reason : String)
        (created : ComplaintCreate) (update : ComplaintUpdate) (resolution : ComplaintResolve)
        (assignment : ComplaintAssignmentCreate) (comment : ComplaintCommentCreate)
        → comments_of new_id s.work.complaint_log.comments ≡ 0
        → HasCounts s
        → HasCounts (create_complaint new_id now service created s).1
          × HasCounts (update_complaint service id update s).1
          × HasCounts (resolve_complaint now service id resolution s).1
          × HasCounts (escalate_complaint comment_id item_id now service id reason s).1
          × HasCounts (assign_complaint show_uuid new_id comment_id now service id assignment s).1
          × HasCounts (add_comment comment_id now service id comment s).1
    complaint_operations-HasCounts new_id item_id comment_id show_uuid reason created update
          resolution assignment comment fresh h =
        (
          create_complaint-HasCounts new_id now service created s fresh h,
          (update_complaint-Keeps service id update).at s h,
          (resolve_complaint-Keeps now service id resolution).at s h,
          (escalate_complaint-Keeps comment_id item_id now service id reason).at s h,
          (assign_complaint-Keeps show_uuid new_id comment_id now service id assignment).at s h,
          (add_comment-Keeps comment_id now service id comment).at s h,
        )
