-- ===== src/Inbox/OpenSet.antt =====
-- The inbox as the set of its open keys: which source records of a tenant wait, and for what.
use ski_tech_backend.Base.{
  ◌≡◌, refl, truthy, get_or, false, ap₂, if◌then◌else◌, ◌∙◌, arith, Bool, true, not, ◌&&◌, ◌||◌,
  Option, inl, inr, List, [], ◌∷◌, ◌==◌, ==→eq, any, any-append, Bool-cases, String, str_eq,
  str_eq_iff,
}
use ski_tech_backend.Runtime.{Uuid}
use ski_tech_backend.Models.{InboxItem, actioned}
use ski_tech_backend.Inbox.{
  ItemFields, is_open_item, new_item, create_inbox_item, matches_source, mark_inbox_items_actioned,
  is_of_type, is_ambiguous,
}
use ski_tech_backend.Inbox.Laws.{HasSingleOpen}

abbrev pub OpenSet : Type 0
OpenSet = Uuid → Uuid → String → Bool

-- What an inbox is a list of.
unfoldable pub open_set : List InboxItem → OpenSet
open_set items tenant_id source_id item_type =
    any (is_open_item tenant_id source_id item_type) items

-- The set with one more key, and the set without those of a source record.
unfoldable pub with_key : ItemFields → OpenSet → OpenSet
with_key f keys tenant_id source_id item_type =
    (f.tenant_id == tenant_id && (f.source_record_id == source_id && str_eq f.item_type item_type))
    || keys tenant_id source_id item_type

unfoldable pub without_source : Uuid → Uuid → Option String → OpenSet → OpenSet
unfolding is_of_type
without_source closed_tenant closed_source closed_type keys tenant_id source_id item_type =
    keys tenant_id source_id item_type
    && not (
        closed_tenant == tenant_id
        && (closed_source == source_id && is_of_type closed_type item_type))

create_refines :
    (f : ItemFields) (items : List InboxItem) (t s : Uuid) (y : String)
    → open_set (create_inbox_item f items) t s y ≡ with_key f (open_set items) t s y
unfolding create_inbox_item new_item open_set with_key
create_refines f items t s y =
    elim (Bool-cases (any (is_open_item f.tenant_id f.source_record_id f.item_type) items)) [
      | inl e ↦
          elim (Bool-cases
            (f.tenant_id == t && (f.source_record_id == s && str_eq f.item_type y))) [
              | inl k ↦
                  let et : f.tenant_id ≡ t = ==→eq _ _ (ground arith) in
                  let es : f.source_record_id ≡ s = ==→eq _ _ (ground arith) in
                  let ey : f.item_type ≡ y = (str_eq_iff f.item_type y).0 (ground arith) in
                  let there = rw (et, es, ey) at e in rw (e, k) there
              | inr k ↦ rw (e, k) refl
            ]
      | inr e ↦
          let added = any-append (is_open_item t s y) items (new_item f ∷ []) in
          rw e (added ∙ ground arith)
    ]

after_mark : Uuid → Uuid → Option String → InboxItem → InboxItem
after_mark t' s' o i = if matches_source t' s' o i then record i { status = actioned } else i

covers : Uuid → Uuid → Option String → Uuid → Uuid → String → Bool
covers t' s' o t s y = t' == t && (s' == s && is_of_type o y)

matches_open :
    (t' s' : Uuid) (o : Option String) (t s : Uuid) (y : String) (i : InboxItem)
    → is_open_item t s y i ≡ true
    → matches_source t' s' o i ≡ covers t' s' o t s y
unfolding matches_source covers is_of_type
matches_open t' s' o t s y i k =
    let ey : i.item_type ≡ y = (str_eq_iff i.item_type y).0 (ground arith) in rw ey (ground arith)

one_item :
    (t' s' : Uuid) (o : Option String) (t s : Uuid) (y : String) (i : InboxItem)
    → is_open_item t s y (after_mark t' s' o i)
      ≡ (is_open_item t s y i && not (covers t' s' o t s y))
unfolding after_mark
one_item t' s' o t s y i = elim (Bool-cases (is_open_item t s y i)) [
  | inl k ↦
      let same = matches_open t' s' o t s y i k in
      elim (Bool-cases (covers t' s' o t s y)) [
        | inl c ↦ rw (same, c, k) (ground arith)
        | inr c ↦ rw (same, c, k) refl
      ]
  | inr k ↦ elim (Bool-cases (matches_source t' s' o i)) [
    | inl m ↦ rw (m, k) (ground arith)
    | inr m ↦ rw (m, k) refl
  ]
]

distribute : (a b n : Bool) → ((a && n) || (b && n)) ≡ ((a || b) && n)
distribute a b n = ground arith

mark_refines :
    (t' s' : Uuid) (o : Option String) (items : List InboxItem) (t s : Uuid) (y : String)
    → open_set (mark_inbox_items_actioned t' s' o items) t s y
      ≡ without_source t' s' o (open_set items) t s y
unfolding mark_inbox_items_actioned open_set without_source after_mark covers
mark_refines t' s' o [] t s y = refl
mark_refines t' s' o (i ∷ items) t s y =
    let here = one_item t' s' o t s y i in
    let rest = mark_refines t' s' o items t s y in
    ap₂ ◌||◌ here rest ∙ distribute (is_open_item t s y i) _ _

single-is_ambiguous :
    (f : ItemFields) (items : List InboxItem) → HasSingleOpen items → is_ambiguous f items ≡ false
unfolding is_ambiguous
single-is_ambiguous f items h =
    let one = h f.tenant_id f.source_record_id f.item_type in ground (arith, one)

-- An inbox with at most one open item for each tenant, source record and type refines the set of
-- these keys. The query of a creation then finds one item at most, so that it does not raise, and
-- the creation adds its key, whether or not an item is written. Closing the items of a source
-- record removes its keys, of one type where a type is given that is not empty, and no other key.
pub inbox_refines_open_set :
    (f : ItemFields) (tenant_id source_id : Uuid) (closed_type : Option String)
    (items : List InboxItem) (t s : Uuid) (y : String)
    → HasSingleOpen items
    → (is_ambiguous f items ≡ false)
      × (open_set (create_inbox_item f items) t s y ≡ with_key f (open_set items) t s y)
      × (open_set (mark_inbox_items_actioned tenant_id source_id closed_type items) t s y ≡ (
          open_set items t s y
          && not (
              tenant_id == t
              && (source_id == s
                  && (not (truthy closed_type) || str_eq y (get_or closed_type ""))))))
unfolding without_source is_of_type
inbox_refines_open_set f tenant_id source_id closed_type items t s y h = (
  single-is_ambiguous f items h,
  create_refines f items t s y,
  mark_refines tenant_id source_id closed_type items t s y,
)
