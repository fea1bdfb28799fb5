-- ===== src/Complaints/Workflow/History.antt =====
-- The history of a complaint's assignments, as an assignment writes it.
use ski_tech_backend.Base.{
  ℕ, ◌+◌, ◌≡◌, refl, ◌∙◌, arith, Bool, true, false, ◌||◌, Option, some, inl, inr, List, [], ◌∷◌,
  ◌++◌, ◌==◌, ==_refl, any, any-append, select, first, truthy, update_row, first-none,
  any_of_select_nil, ltb, Bool-cases, Option-cases, String,
}
use ski_tech_backend.Runtime.{Uuid}
use ski_tech_backend.Text.{text_length}
use ski_tech_backend.Complaints.Workflow.Stored.{
  find_saved, comment_data_ok, settled, find_commented,
}
use ski_tech_backend.Session.{Session}
use ski_tech_backend.Models.{Db}
use ski_tech_backend.Models.Complaints.{Complaint, ComplaintStatus, ComplaintAssignment}
use ski_tech_backend.Complaints.{
  ComplaintService, counted_comment, find_complaint, save_complaint, add_comment, add_comment_row,
}
use ski_tech_backend.Complaints.Workflow.{
  ComplaintAssignmentCreate, assigned_complaint, assignment_text, is_user, with_assignments,
  with_notes, is_assignment_of, assignment_key, new_complaint_assignment, put_assignment,
  write_assignment, log_assignment, assign_complaint,
}

-- The unique constraint `uq_complaint_assignment`.
abbrev pub HasUniqueAssignees : List ComplaintAssignment → Type 0
HasUniqueAssignees [] = Unit
HasUniqueAssignees (a ∷ rest) =
    (any (is_assignment_of a.complaint_id a.assigned_to) rest ≡ false) × HasUniqueAssignees rest

add_unique :
    (xs : List ComplaintAssignment) (a : ComplaintAssignment)
    → any (is_assignment_of a.complaint_id a.assigned_to) xs ≡ false
    → HasUniqueAssignees xs
    → HasUniqueAssignees (xs ++ a ∷ [])
add_unique [] a free unique = (refl, tt)
add_unique (x ∷ xs) a free unique =
    let split = any-append (is_assignment_of x.complaint_id x.assigned_to) xs (a ∷ []) in
    (ground (arith, split, unique.0), add_unique xs a (ground arith) unique.1)

any-with_notes :
    (i u k : Uuid) (notes : Option String) (xs : List ComplaintAssignment)
    → any (is_assignment_of i u) (update_row assignment_key k (with_notes notes) xs)
      ≡ any (is_assignment_of i u) xs
any-with_notes i u k notes [] = refl
any-with_notes i u k notes (x ∷ xs) = elim (Bool-cases (x.id == k)) [
  | inl e ↦ rw (e, any-with_notes i u k notes xs) refl
  | inr e ↦ rw (e, any-with_notes i u k notes xs) refl
]

with_notes-HasUniqueAssignees :
    (k : Uuid) (notes : Option String) (xs : List ComplaintAssignment)
    → HasUniqueAssignees xs
    → HasUniqueAssignees (update_row assignment_key k (with_notes notes) xs)
with_notes-HasUniqueAssignees k notes [] h = tt
with_notes-HasUniqueAssignees k notes (x ∷ xs) h =
    let rest = with_notes-HasUniqueAssignees k notes xs h.1 in
    let same = any-with_notes x.complaint_id x.assigned_to k notes xs in
    elim (Bool-cases (x.id == k)) [
      | inl e ↦ rw e (same ∙ h.0, rest)
      | inr e ↦ rw e (same ∙ h.0, rest)
    ]

any_of_first :
    (p : ComplaintAssignment → Bool) (xs : List ComplaintAssignment) {a : ComplaintAssignment}
    → first (select p xs) ≡ some a
    → any p xs ≡ true
any_of_first p [] e = cc
any_of_first p (x ∷ xs) e = elim (Bool-cases (p x)) [
  | inl y ↦ rw y refl
  | inr y ↦ rw y (any_of_first p xs (rw y at e))
]

-- The history after an assignment to a user.
abbrev IsHistoryOf : Uuid → Uuid → List ComplaintAssignment → Type 0
IsHistoryOf id user_id xs = (any (is_assignment_of id user_id) xs ≡ true) × HasUniqueAssignees xs

write_assignment-IsHistoryOf :
    (new_id : Uuid) (now : ℕ) (service : ComplaintService) (id : Uuid)
    (data_in : ComplaintAssignmentCreate) (xs : List ComplaintAssignment)
    → HasUniqueAssignees xs
    → IsHistoryOf id data_in.assigned_to (write_assignment new_id now service id data_in xs)
unfolding write_assignment put_assignment new_complaint_assignment
write_assignment-IsHistoryOf new_id now service id data_in xs h =
    let p = is_assignment_of id data_in.assigned_to in
    elim (Option-cases (first (select p xs))) [
      | inl e ↦
          let a = new_complaint_assignment new_id now service id data_in in
          let free : any p xs ≡ false = any_of_select_nil p xs (first-none p xs e) in
          let split = any-append p xs (a ∷ []) in
          let same_complaint = ==_refl id in
          let same_user = ==_refl data_in.assigned_to in
          rw e (split ∙ rw (free, same_complaint, same_user) refl, add_unique xs a free h)
      | inr (a, e) ↦
          let there = any_of_first p xs e in
          elim (Bool-cases (truthy data_in.notes)) [
            | inl y ↦
                rw (e, y)
                  (
                    any-with_notes id data_in.assigned_to a.id data_in.notes xs ∙ there,
                    with_notes-HasUniqueAssignees a.id data_in.notes xs h,
                  )
            | inr y ↦ rw (e, y) (there, h)
          ]
    ]

module _ {Float : Type 0} where
  find_with_assignments :
      (id tenant_id : Uuid) (rows : List ComplaintAssignment) (d : Db Float)
      → find_complaint id tenant_id (with_assignments rows d) ≡ find_complaint id tenant_id d
  unfolding find_complaint
  find_with_assignments id tenant_id rows d = refl

  -- An assignment that finds its complaint and its user, and whose text makes a comment of an
  -- allowed length, commits the complaint as given to the user and in progress with one more
  -- comment counted. Where no user had two rows for one complaint in the history, none has
  -- afterwards, and the user has one for this complaint.
  pub assign_complaint_stored :
      (show_uuid : Uuid → String) (new_id comment_id : Uuid) (now : ℕ) (service : ComplaintService)
      (id : Uuid) (data_in : ComplaintAssignmentCreate) (s : Session (Db Float)) (c : Complaint)
      → find_complaint id service.tenant_id s.work ≡ some c
      → is_user data_in.assigned_to s.work ≡ true
      → (text_length (assignment_text show_uuid data_in) == 0
          || ltb 2000 (text_length (assignment_text show_uuid data_in)))
        ≡ false
      → HasUniqueAssignees s.work.complaint_log.assignments
      → (find_complaint id service.tenant_id
            (assign_complaint show_uuid new_id comment_id now service id data_in s).1.committed
          ≡ some (record c {
            assigned_to = some data_in.assigned_to;
            assigned_by = some service.user_id;
            assigned_at = some now;
            status = ComplaintStatus.in_progress;
            comment_count = c.comment_count + 1;
          }))
        × (any
              (is_assignment_of id data_in.assigned_to)
              (assign_complaint show_uuid new_id comment_id now service id data_in
                s).1.committed.complaint_log.assignments
            ≡ true)
        × HasUniqueAssignees
            (assign_complaint show_uuid new_id comment_id now service id data_in
              s).1.committed.complaint_log.assignments
  unfolding assign_complaint assigned_complaint log_assignment add_comment save_complaint
      add_comment_row counted_comment
  assign_complaint_stored show_uuid new_id comment_id now service id data_in s c found known fits
        unique =
      let d =
        with_assignments
          (write_assignment new_id now service id data_in s.work.complaint_log.assignments)
          s.work in
      let g = assigned_complaint service.user_id now data_in.assigned_to c in
      let found' : find_complaint id service.tenant_id d ≡ some c =
        find_with_assignments id service.tenant_id _ s.work ∙ found in
      let saved : find_complaint id service.tenant_id (save_complaint g d) ≡ some g =
        find_saved id service.tenant_id g c d found' refl refl in
      let last =
        find_commented comment_id now service id g (assignment_text show_uuid data_in)
          (save_complaint g d) saved in
      let (there, one) =
        write_assignment-IsHistoryOf new_id now service id data_in s.work.complaint_log.assignments
          unique in
      rw (found, known)
        (rw
          (comment_data_ok (assignment_text show_uuid data_in) (settled (save_complaint g d)) fits)
          (rw saved (last, there, one)))
