-- ===== src/Frontend/RecentlyViewed.antt =====
-- frontend/src/app/core/catalog/recently-viewed.store.ts. The tab's storage holds the list that was
-- written last; its JSON is the browser's.
use ecommerce_rest_api.Base.{
  ℕ, zero, suc, Bool, true, false, not, Option, none, some, List, [], ◌∷◌, ◌≡◌, refl, ap, subst,
  ==_lem, if◌then◌else◌, ◌==◌, keep, take, All, Bool-cases, inl, inr,
}
use ecommerce_rest_api.Domain.{ObjectId}

abbrev pub recently_viewed_max : ℕ
recently_viewed_max = 12

pub record RecentlyViewed : Type 0 where
  pub ids : List ObjectId
  pub can_write : Bool
  pub stored : List ObjectId

abbrev without : ObjectId → List ObjectId → List ObjectId
without id ids = keep (λ existing. not (existing == id)) ids

abbrev write : List ObjectId → RecentlyViewed → RecentlyViewed
write next s = record s { ids = next; stored = if s.can_write then next else s.stored }

-- `record`
unfoldable pub record_view : ObjectId → RecentlyViewed → RecentlyViewed
record_view id s = write (take recently_viewed_max (id ∷ without id s.ids)) s

abbrev recent_of : Option ObjectId → List ObjectId → List ObjectId
recent_of none ids = ids
recent_of (some except) ids = without except ids

unfoldable pub recent : Option ObjectId → RecentlyViewed → List ObjectId
recent except s = recent_of except s.ids

unfoldable pub clear : RecentlyViewed → RecentlyViewed
clear s = write [] s

-- The store of a tab whose storage reads as this list of ids.
unfoldable pub read : Bool → List ObjectId → RecentlyViewed
read can_write parsed = record {
  ids = take recently_viewed_max parsed;
  can_write = can_write;
  stored = parsed;
}

-- Products are opened, the last one first in the list.
unfoldable pub opened : List ObjectId → RecentlyViewed → RecentlyViewed
opened [] s = s
opened (id ∷ before) s = record_view id (opened before s)

-- Every product once, where it was opened last.
abbrev pub distinct : List ObjectId → List ObjectId
distinct [] = []
distinct (id ∷ before) = id ∷ without id (distinct before)

abbrev Absent : ObjectId → List ObjectId → Type 0
Absent id ids = All (λ other. (other == id) ≡ false) ids

abbrev IsDistinct : List ObjectId → Type 0
IsDistinct [] = Unit {0}
IsDistinct (id ∷ ids) = Absent id ids × IsDistinct ids

without-Absent : (id : ObjectId) (ids : List ObjectId) → Absent id ids → without id ids ≡ ids
without-Absent id [] h = refl
without-Absent id (x ∷ ids) h = rw (h.0) (ap (λ r. x ∷ r) (without-Absent id ids h.1))

Absent-take : (n id : ℕ) (ids : List ObjectId) → Absent id ids → Absent id (take n ids)
Absent-take zero id ids h = tt
Absent-take (suc n) id [] h = tt
Absent-take (suc n) id (x ∷ ids) h = (h.0, Absent-take n id ids h.1)

take-take : (n : ℕ) (ids : List ObjectId) → take n (take n ids) ≡ take n ids
take-take zero ids = refl
take-take (suc n) [] = refl
take-take (suc n) (x ∷ ids) = ap (λ r. x ∷ r) (take-take n ids)

Absent-without :
    (id other : ObjectId) (ids : List ObjectId) → Absent id ids → Absent id (without other ids)
Absent-without id other [] h = tt
Absent-without id other (x ∷ ids) h =
    let ih = Absent-without id other ids h.1 in
    elim (Bool-cases (x == other)) [
      | inl same ↦ rw (same) ih
      | inr differs ↦ rw (differs) (h.0, ih)
    ]

without-drops : (id : ObjectId) (ids : List ObjectId) → Absent id (without id ids)
without-drops id [] = tt
without-drops id (x ∷ ids) =
    let ih = without-drops id ids in
    elim (Bool-cases (x == id)) [
      | inl same ↦ rw (same) ih
      | inr differs ↦ rw (differs) (differs, ih)
    ]

without-IsDistinct :
    (id : ObjectId) (ids : List ObjectId) → IsDistinct ids → IsDistinct (without id ids)
without-IsDistinct id [] h = tt
without-IsDistinct id (x ∷ ids) h =
    let ih = without-IsDistinct id ids h.1 in
    elim (Bool-cases (x == id)) [
      | inl same ↦ rw (same) ih
      | inr differs ↦ rw (differs) (Absent-without x id ids h.0, ih)
    ]

distinct-IsDistinct : (ids : List ObjectId) → IsDistinct (distinct ids)
distinct-IsDistinct [] = tt
distinct-IsDistinct (id ∷ ids) = (
  without-drops id (distinct ids),
  without-IsDistinct id (distinct ids) (distinct-IsDistinct ids),
)

-- A bound that leaves room for one more does not show when one id is dropped.
take-without :
    (n id : ℕ) (ids : List ObjectId)
    → IsDistinct ids
    → take n (without id (take (suc n) ids)) ≡ take n (without id ids)
take-without zero id ids h = refl
take-without (suc n) id [] h = refl
take-without (suc n) id (x ∷ ids) h = elim (Bool-cases (x == id)) [
  | inl same ↦
      let gone : Absent id ids = subst (λ y. Absent y ids) (==_lem x id same) h.0 in
      rw
        (
          same,
          without-Absent id (take (suc n) ids) (Absent-take (suc n) id ids gone),
          without-Absent id ids gone,
        )
        (take-take (suc n) ids)
  | inr differs ↦ rw (differs) (ap (λ r. x ∷ r) (take-without n id ids h.1))
]

record IsHistory (can_write : Bool) (visits : List ObjectId) (s : RecentlyViewed) : Type 0 where
  shown : s.ids ≡ take recently_viewed_max (distinct visits)
  writes : s.can_write ≡ can_write
  kept : can_write ≡ true → s.stored ≡ s.ids

opened-IsHistory :
    (can_write : Bool) (visits : List ObjectId)
    → IsHistory can_write visits (opened visits (read can_write []))
unfolding opened record_view read
opened-IsHistory can_write [] = record { shown = refl; writes = refl; kept = λ e. refl }
opened-IsHistory can_write (id ∷ before) =
    let ih = opened-IsHistory can_write before in
    record {
      shown =
          rw (ih.shown)
            (ap (λ r. id ∷ r) (take-without 11 id (distinct before) (distinct-IsDistinct before)));
      writes = ih.writes;
      kept = λ e. rw (ih.writes, e) refl;
    }

-- After any products were opened in a tab without a history, its history is the last twelve distinct
-- ones, the latest first, and so is what the storage holds, if it can be written.
pub opened-distinct :
    (can_write : Bool) (ids : List ObjectId)
    → (let s = opened ids (read can_write []) in
        (s.ids ≡ take recently_viewed_max (distinct ids)) × (can_write ≡ true → s.stored ≡ s.ids))
opened-distinct can_write ids = let h = opened-IsHistory can_write ids in (h.shown, h.kept)
