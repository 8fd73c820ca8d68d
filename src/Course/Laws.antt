-- ===== src/Course/Laws.antt =====
-- Runs of the course reader, and what a read that settles may do.
use signalk_crows_nest.Prelude.{
  ℕ, String, ◌<◌, ◌≤◌, List, ◌∷◌, ◌++◌, Option, none, some, not, ◌||◌, arith, ◌≡◌, ◌==◌, if_ind,
  option_ind, All, All-append, All-remove, subst, ◌∙◌,
}
use signalk_crows_nest.Floats.{Floats}
use signalk_crows_nest.Types.{Wire}
use signalk_crows_nest.Route.Corridor.{RoutePolyline}
use signalk_crows_nest.Course.{parse_route_id, build_route_polyline}
use signalk_crows_nest.Course.Reader.{
  ResourceRead, Reader, CourseResult, ResourceResult, write_log, schedule_refresh, create, stop,
  apply_refresh, on_course, on_resource, on_active_route_delta,
}

module _ {F : Type 0} ⦃n : Floats F⦄ where
  -- A read that was under way settles.
  pub data Settle : Reader F → Reader F → Type 0 where
    on_course_read :
        (r : Reader F) (before after : List ℕ) (generation : ℕ) (result : CourseResult F)
        → r.course_reads ≡ before ++ generation ∷ after
        → Settle r (on_course generation (before ++ after) result r)
    on_resource_read :
        (r : Reader F) (before after : List (ResourceRead F)) (read : ResourceRead F)
        (result : ResourceResult F)
        → r.resource_reads ≡ before ++ read ∷ after
        → Settle r (on_resource read (before ++ after) result r)

  pub data Settling (r : Reader F) : Reader F → Type 0 where
    settled : Settling r r
    also : {s t : Reader F} → Settling r s → Settle s t → Settling r t

  pub data Run : Reader F → Type 0 where
    begun : Run create
    href : {r : Reader F} → Run r → (delta : Wire F) → Run (on_active_route_delta delta r)
    next_point : {r : Reader F} → Run r → Run (schedule_refresh r)
    arrived : {r s : Reader F} → Run r → Settle r s → Run s
    halt : {r : Reader F} → Run r → Run (stop r)

  -- The reads under way are of refreshes below the bound.
  pub record IsBelow (bound : ℕ) (r : Reader F) : Type 0 where
    pub courses : All (λ k. k < bound) r.course_reads
    pub resources : All (λ (x : ResourceRead F). x.generation < bound) r.resource_reads

  pub apply_refresh-IsBelow :
      (bound generation : ℕ) (route : Option (RoutePolyline F)) (r : Reader F)
      → IsBelow bound r
      → IsBelow bound (apply_refresh generation route r)
  unfolding apply_refresh
  apply_refresh-IsBelow bound generation route r h =
      if_ind (IsBelow bound) (r.stopped || not (generation == r.refresh_generation)) (λ _. h)
        λ _. record { courses = h.courses; resources = h.resources }

  -- The first of the courses, and the others.
  taken_course :
      (bound : ℕ) (r : Reader F) (before after : List ℕ) (generation : ℕ)
      → r.course_reads ≡ before ++ generation ∷ after
      → IsBelow bound r
      → (generation < bound) × IsBelow bound (record r { course_reads = before ++ after })
  taken_course bound r before after generation at h =
      let (first, others) =
        All-remove (λ k. k < bound) before generation after
          (subst (All (λ k. k < bound)) at h.courses) in
      (first, record { courses = others; resources = h.resources })

  taken_resource :
      (bound : ℕ) (r : Reader F) (before after : List (ResourceRead F)) (x : ResourceRead F)
      → r.resource_reads ≡ before ++ x ∷ after
      → IsBelow bound r
      → (x.generation < bound) × IsBelow bound (record r { resource_reads = before ++ after })
  taken_resource bound r before after x at h =
      let (first, others) =
        All-remove (λ (y : ResourceRead F). y.generation < bound) before x after
          (subst (All (λ (y : ResourceRead F). y.generation < bound)) at h.resources) in
      (first, record { courses = h.courses; resources = others })

  -- The route, its changes and the generation of the reader.
  pub record IsKept (old r : Reader F) : Type 0 where
    pub route : r.current_route ≡ old.current_route
    pub changes : r.route_changes ≡ old.route_changes
    pub generation : r.refresh_generation ≡ old.refresh_generation

  apply_refresh-stale :
      (old r : Reader F) (generation : ℕ) (route : Option (RoutePolyline F))
      → generation < old.refresh_generation
      → IsKept old r
      → IsKept old (apply_refresh generation route r)
  unfolding apply_refresh
  apply_refresh-stale old r generation route lt h =
      if_ind (IsKept old) (r.stopped || not (generation == r.refresh_generation)) (λ _. h)
        λ live. absurd (ground (arith, h.generation))

  -- What a settling read may do: below any bound the reads stay, and a reader whose reads are all
  -- outdated keeps its route.
  pub record IsFine (bound : ℕ) (old r : Reader F) : Type 0 where
    pub below : IsBelow bound r
    pub steady : r.refresh_generation ≡ old.refresh_generation
    pub kept : bound ≤ old.refresh_generation → IsKept old r

  pub apply_refresh-steady :
      (generation : ℕ) (route : Option (RoutePolyline F)) (r : Reader F)
      → (apply_refresh generation route r).refresh_generation ≡ r.refresh_generation
  unfolding apply_refresh
  apply_refresh-steady generation route r = ground arith

  apply_refresh-IsFine :
      (bound generation : ℕ) (old r : Reader F) (route : Option (RoutePolyline F))
      → generation < bound
      → IsFine bound old r
      → IsFine bound old (apply_refresh generation route r)
  apply_refresh-IsFine bound generation old r route lt h = record {
    below = apply_refresh-IsBelow bound generation route r h.below;
    steady = apply_refresh-steady generation route r ∙ h.steady;
    kept = λ le. apply_refresh-stale old r generation route (omega arith) (h.kept le);
  }

  write_log-IsFine :
      (bound : ℕ) (old r : Reader F) (lines : List String)
      → IsFine bound old r
      → IsFine bound old (write_log lines r)
  unfolding write_log
  write_log-IsFine bound old r lines h = record {
    below = record { courses = h.below.courses; resources = h.below.resources };
    steady = h.steady;
    kept = λ le.
        let k = h.kept le in
        record { route = k.route; changes = k.changes; generation = k.generation };
  }

  on_course-IsFine :
      (bound : ℕ) (old r : Reader F) (generation : ℕ) (rest : List ℕ) (result : CourseResult F)
      → generation < bound
      → IsFine bound old (record r { course_reads = rest })
      → IsFine bound old (on_course generation rest result r)
  unfolding on_course
  on_course-IsFine bound old r generation rest (CourseResult.course_failed error) lt h =
      apply_refresh-IsFine bound generation old _ none lt (write_log-IsFine bound old _ _ h)
  on_course-IsFine bound old r generation rest (CourseResult.course none) lt h =
      apply_refresh-IsFine bound generation old _ none lt h
  on_course-IsFine bound old r generation rest (CourseResult.course (some active)) lt h =
      option_ind (IsFine bound old) (parse_route_id active.href)
        (λ _.
          apply_refresh-IsFine bound generation old _ none lt (write_log-IsFine bound old _ _ h))
        (λ route_id _. record {
          below = record {
            courses = h.below.courses;
            resources =
                All-append (λ (x : ResourceRead F). x.generation < bound) r.resource_reads _
                  h.below.resources (lt, tt);
          };
          steady = h.steady;
          kept = λ le.
              let k = h.kept le in
              record { route = k.route; changes = k.changes; generation = k.generation };
        })

  on_resource-IsFine :
      (bound : ℕ) (old r : Reader F) (x : ResourceRead F) (rest : List (ResourceRead F))
      (result : ResourceResult F)
      → x.generation < bound
      → IsFine bound old (record r { resource_reads = rest })
      → IsFine bound old (on_resource x rest result r)
  unfolding on_resource
  on_resource-IsFine bound old r x rest (ResourceResult.resource_failed error) lt h =
      apply_refresh-IsFine bound x.generation old _ none lt (write_log-IsFine bound old _ _ h)
  on_resource-IsFine bound old r x rest (ResourceResult.resource body) lt h =
      option_ind (IsFine bound old) (build_route_polyline x.route_id x.active body)
        (λ _. write_log-IsFine bound old _ _ h)
        λ built _.
          apply_refresh-IsFine bound x.generation old _ built.0 lt
            (write_log-IsFine bound old _ built.1 h)

  pub Settle-IsFine :
      (bound : ℕ) {old r s : Reader F} → Settle r s → IsFine bound old r → IsFine bound old s
  Settle-IsFine bound {old} (on_course_read r before after generation result at) h =
      let (lt, below) = taken_course bound r before after generation at h.below in
      on_course-IsFine bound old r generation (before ++ after) result lt (record {
        below = below;
        steady = h.steady;
        kept = λ le.
            let k = h.kept le in
            record { route = k.route; changes = k.changes; generation = k.generation };
      })
  Settle-IsFine bound {old} (on_resource_read r before after x result at) h =
      let (lt, below) = taken_resource bound r before after x at h.below in
      on_resource-IsFine bound old r x (before ++ after) result lt (record {
        below = below;
        steady = h.steady;
        kept = λ le.
            let k = h.kept le in
            record { route = k.route; changes = k.changes; generation = k.generation };
      })
