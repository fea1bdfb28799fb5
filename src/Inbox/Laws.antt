-- ===== src/Inbox/Laws.antt =====
-- Inbox items: at most one open item for a source record and a type, and none after its review.
use ski_tech_backend.Base.{
  ◌≤◌, Bool, true, false, inl, inr, Option, some, List, [], ◌∷◌, ◌++◌, append-nil, ◌≡◌, refl, arith,
  ==→eq, any, select, select-append, length, Bool-cases, String, str_eq_iff, select_of_any-false,
}
use ski_tech_backend.Runtime.{Uuid}
use ski_tech_backend.Models.{InboxItem}
use ski_tech_backend.Inbox.{
  ItemFields, is_open_item, new_item, create_inbox_item, notify, matches_source,
  mark_inbox_items_actioned,
}

-- A tenant has at most one open item for a source record and a type.
abbrev pub HasSingleOpen : List InboxItem → Type 0
HasSingleOpen items =
    (tenant_id source_id : Uuid) (item_type : String)
    → length (select (is_open_item tenant_id source_id item_type) items) ≤ 1

create_keeps :
    (f : ItemFields) (items : List InboxItem)
    → HasSingleOpen items
    → HasSingleOpen (create_inbox_item f items)
unfolding create_inbox_item new_item
create_keeps f items h t s y =
    let p = is_open_item t s y in
    let one = h t s y in
    elim (Bool-cases (any (is_open_item f.tenant_id f.source_record_id f.item_type) items)) [
      | inl e ↦ rw e one
      | inr e ↦ elim (Bool-cases (p (new_item f))) [
        | inl k ↦
            let et : f.tenant_id ≡ t = ==→eq _ _ (ground arith) in
            let es : f.source_record_id ≡ s = ==→eq _ _ (ground arith) in
            let ey : f.item_type ≡ y = (str_eq_iff f.item_type y).0 (ground arith) in
            let clear : select p items ≡ [] = select_of_any-false p items (rw (et, es, ey) at e) in
            rw e (rw (select-append, clear, k) (omega arith))
        | inr k ↦ rw e (rw (select-append, k, append-nil) one)
      ]
    ]

mark_keeps :
    (t s : Uuid) (o : Option String) (t' s' : Uuid) (y : String) (items : List InboxItem)
    → length (select (is_open_item t' s' y) (mark_inbox_items_actioned t s o items))
      ≤ length (select (is_open_item t' s' y) items)
unfolding mark_inbox_items_actioned
mark_keeps t s o t' s' y [] = ground arith
mark_keeps t s o t' s' y (i ∷ items) = ground (arith, mark_keeps t s o t' s' y items)

-- Creating an item, notifying, whether or not its write fails, and closing items keep at most one
-- open item for each tenant, source record and type.
pub inbox_keeps_single_open :
    (f : ItemFields) (write_fails : Bool) (tenant_id source_id : Uuid) (item_type : Option String)
    (items : List InboxItem)
    → HasSingleOpen items
    → HasSingleOpen (create_inbox_item f items)
      × HasSingleOpen (notify write_fails f items)
      × HasSingleOpen (mark_inbox_items_actioned tenant_id source_id item_type items)
unfolding notify
inbox_keeps_single_open f write_fails tenant_id source_id item_type items h = (
  create_keeps f items h,
  elim write_fails as (λ b. HasSingleOpen (notify b f items)) [
    | true ↦ h
    | false ↦ create_keeps _ items h
  ],
  λ t s y.
      let one = h t s y in
      let fewer = mark_keeps tenant_id source_id item_type t s y items in omega (arith, one, fewer),
)

pub none_open_after_mark :
    (tenant_id source_id : Uuid) (item_type : String) (items : List InboxItem)
    → any
        (is_open_item tenant_id source_id item_type)
        (mark_inbox_items_actioned tenant_id source_id (some item_type) items)
      ≡ false
unfolding mark_inbox_items_actioned matches_source
none_open_after_mark t s y [] = refl
none_open_after_mark t s y (i ∷ items) = ground (arith, none_open_after_mark t s y items)

-- Closing the items of a source record and a type leaves none of them open, so that the next one
-- for them is added at the end, whatever there was before.
pub create-mark :
    (f : ItemFields) (items : List InboxItem)
    → (any
          (is_open_item f.tenant_id f.source_record_id f.item_type)
          (mark_inbox_items_actioned f.tenant_id f.source_record_id (some f.item_type) items)
        ≡ false)
      × (create_inbox_item f
            (mark_inbox_items_actioned f.tenant_id f.source_record_id (some f.item_type) items)
          ≡ mark_inbox_items_actioned f.tenant_id f.source_record_id (some f.item_type) items
            ++ new_item f ∷ [])
unfolding create_inbox_item
create-mark f items =
    let clear = none_open_after_mark f.tenant_id f.source_record_id f.item_type items in
    (clear, rw clear refl)
