-- ===== src/Complaints/Counts/Rows.antt =====
-- How one more comment changes the number of comments of each complaint.
use ski_tech_backend.Base.{
  ℕ, ◌+◌, ◌≡◌, refl, sym, ◌∙◌, arith, true, false, inl, inr, All, List, [], ◌∷◌, ◌++◌, append-nil,
  ◌==◌, select, select-append, length, length-append, update_row, Bool-cases,
}
use ski_tech_backend.Runtime.{Uuid}
use ski_tech_backend.Models.Complaints.{Complaint, ComplaintComment}
use ski_tech_backend.Complaints.{complaint_key, is_comment_of}

abbrev pub comments_of : Uuid → List ComplaintComment → ℕ
comments_of id ms = length (select (is_comment_of id) ms)

abbrev pub IsCountOf : List ComplaintComment → Complaint → Type 0
IsCountOf ms c = c.comment_count ≡ comments_of c.id ms

pub comments_of_snoc_other :
    (i : Uuid) (ms : List ComplaintComment) (m : ComplaintComment)
    → (m.complaint_id == i) ≡ false
    → comments_of i (ms ++ m ∷ []) ≡ comments_of i ms
comments_of_snoc_other i ms m ne = rw (select-append, ne, append-nil) refl

pub comments_of_snoc :
    (i : Uuid) (ms : List ComplaintComment) (m : ComplaintComment)
    → (m.complaint_id == i) ≡ true
    → comments_of i (ms ++ m ∷ []) ≡ comments_of i ms + 1
comments_of_snoc i ms m e =
    rw (select-append, e) (length-append (select (is_comment_of i) ms) (m ∷ []))

pub counted_rows :
    (ms : List ComplaintComment) (m : ComplaintComment) (g : Complaint) (xs : List Complaint)
    → m.complaint_id ≡ g.id
    → IsCountOf (ms ++ m ∷ []) g
    → All (IsCountOf ms) xs
    → All (IsCountOf (ms ++ m ∷ [])) (update_row complaint_key g.id (λ _. g) xs)
counted_rows ms m g [] same hg h = tt
counted_rows ms m g (x ∷ xs) same hg h = elim (Bool-cases (x.id == g.id)) [
  | inl e ↦ rw e (hg, counted_rows ms m g xs same hg h.1)
  | inr e ↦
      let ne : (m.complaint_id == x.id) ≡ false = rw same (ground (arith, e)) in
      let other = comments_of_snoc_other x.id ms m ne in
      rw e (h.0 ∙ sym other, counted_rows ms m g xs same hg h.1)
]

pub All-snoc :
    {A : Type 0} (P : A → Type 0) (xs : List A) (y : A) → All P xs → P y → All P (xs ++ y ∷ [])
All-snoc P [] y h p = (p, tt)
All-snoc P (x ∷ xs) y h p = (h.0, All-snoc P xs y h.1 p)
