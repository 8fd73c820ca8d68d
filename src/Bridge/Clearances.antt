-- ===== src/Bridge/Clearances.antt =====
-- Where the clearances come from that a pass over the bridges judges.
use signalk_crows_nest.Prelude.{
  ℕ, str_eq, Option, none, some, Bool, true, false, ◌&&◌, ◌⊎◌, ◌≡◌, refl, sym, ◌∙◌, arith,
  Bool-cases, inl, inr, if◌then◌else◌,
}
use signalk_crows_nest.Floats.{Floats}
use signalk_crows_nest.Types.{PoiSummary, active_captain_source_id}
use signalk_crows_nest.Numbers.{to_finite_number}
use signalk_crows_nest.Bridge.Resolver.{
  Lru, CachedClearance, Resolver, is_bridge, look_up, clearance_meters,
}

-- Lookups of one pass, one behind the other.
pub data Asking {F C D : Type 0} ⦃n : Floats F⦄ ⦃lru : Lru C (CachedClearance F)⦄ ⦃stamps : Lru D ℕ⦄
    (ttl_ms now : ℕ) (r : Resolver F C D) : Resolver F C D → Type 0 where
  none_yet : Asking ttl_ms now r r
  then_asked :
      {s : Resolver F C D}
      → Asking ttl_ms now r s
      → (poi : PoiSummary F) → Asking ttl_ms now r (clearance_meters ttl_ms now poi s).1

-- Where a clearance comes from: the summary, or what the resolver has cached for the id of an
-- ActiveCaptain point when the pass comes to it.
pub data IsKnown {F C D : Type 0} ⦃n : Floats F⦄ ⦃lru : Lru C (CachedClearance F)⦄
    ⦃stamps : Lru D ℕ⦄ (ttl_ms now : ℕ) (start : Resolver F C D) (poi : PoiSummary F)
    (clearance : F) : Type 0 where
  on_summary :
      poi.vertical_clearance_meters ≡ some clearance
      → n.is_finite clearance ≡ true
      → IsKnown ttl_ms now start poi clearance
  in_cache :
      (r : Resolver F C D) (cached : CachedClearance F)
      → Asking ttl_ms now start r
      → str_eq poi.source active_captain_source_id ≡ true
      → (lru.get poi.id r.cache).0 ≡ some cached
      → cached.clearance ≡ some clearance
      → IsKnown ttl_ms now start poi clearance

cached_clearance : {F : Type 0} → Option (CachedClearance F) → Option F
cached_clearance none = none
cached_clearance (some c) = c.clearance

answer : {F : Type 0} ⦃n : Floats F⦄ → Option F → Bool → Option (CachedClearance F) → Option F
answer ⦃n⦄ none fetches found = if fetches then cached_clearance found else none
answer ⦃n⦄ (some x) fetches found =
    if n.is_finite x then some x else if fetches then cached_clearance found else none

-- Where an answer comes from.
answer_cases :
    {F : Type 0} ⦃n : Floats F⦄ (summary : Option F) (fetches : Bool)
    (found : Option (CachedClearance F)) (clearance : F)
    → answer summary fetches found ≡ some clearance
    → ((summary ≡ some clearance) × (n.is_finite clearance ≡ true))
      ⊎ ((fetches ≡ true)
          × ((c : CachedClearance F) × (found ≡ some c) × (c.clearance ≡ some clearance)))
unfolding answer cached_clearance
answer_cases none true none clearance e = absurd (ground (arith, e))
answer_cases none true (some c) clearance e = inr (refl, (c, refl, e))
answer_cases none false found clearance e = absurd (ground (arith, e))
answer_cases (some x) true none clearance e = inl (ground (arith, e))
answer_cases ⦃n⦄ (some x) true (some c) clearance e = elim (Bool-cases (n.is_finite x)) [
  | inl finite ↦ inl (ground (arith, e, finite))
  | inr infinite ↦ inr (refl, (c, refl, ground (arith, e, infinite)))
]
answer_cases (some x) false found clearance e = inl (ground (arith, e))

pub clearance_meters-IsKnown :
    {F C D : Type 0} ⦃n : Floats F⦄ ⦃lru : Lru C (CachedClearance F)⦄ ⦃stamps : Lru D ℕ⦄
    (ttl_ms now : ℕ) (start r : Resolver F C D) (poi : PoiSummary F) (clearance : F)
    → Asking ttl_ms now start r
    → (clearance_meters ttl_ms now poi r).0 ≡ some clearance
    → IsKnown ttl_ms now start poi clearance
unfolding clearance_meters look_up to_finite_number answer cached_clearance
clearance_meters-IsKnown ⦃lru = lru⦄ ttl_ms now start r poi clearance asked e =
    let fetches = str_eq poi.source active_captain_source_id && is_bridge poi.type in
    let found = (lru.get poi.id r.cache).0 in
    let same : (clearance_meters ttl_ms now poi r).0
        ≡ answer poi.vertical_clearance_meters fetches found =
      ground arith in
    elim (answer_cases poi.vertical_clearance_meters fetches found clearance (sym same ∙ e)) [
      | inl (own, finite) ↦ on_summary own finite
      | inr (allowed, (cached, at, value)) ↦
          in_cache r cached asked (ground (arith, allowed)) at value
    ]
