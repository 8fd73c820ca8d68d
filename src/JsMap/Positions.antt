-- ===== src/JsMap/Positions.antt =====
-- The entry at a known place of a map: found, replaced in place and deleted.
use signalk_crows_nest.Prelude.{
  String, str_eq, ◌||◌, eq_iff, List, [], ◌∷◌, ◌++◌, some, false, or_option, ◌≡◌, refl, arith,
}
use signalk_crows_nest.JsMap
use signalk_crows_nest.JsMap.Laws.{IsDistinct, delete-IsDistinct}

module _ {V : Type 0} where
  pub get-append_first :
      (done : List (String × V)) (k : String) (v : V) (rest : List (String × V))
      → IsDistinct (done ++ (k, v) ∷ rest)
      → JsMap.get k (done ++ (k, v) ∷ rest) ≡ some v
  unfolding JsMap.get
  get-append_first [] k v rest d = ground (arith, eq_iff k k)
  get-append_first ((j, w) ∷ done) k v rest d =
      ground (arith, eq_iff j k, get-append_first done k v rest d.1)

  pub delete-append_first :
      (done : List (String × V)) (k : String) (v : V) (rest : List (String × V))
      → IsDistinct (done ++ (k, v) ∷ rest)
      → JsMap.delete k (done ++ (k, v) ∷ rest) ≡ done ++ rest
  unfolding JsMap.get JsMap.delete
  delete-append_first [] k v rest d = ground (arith, eq_iff k k)
  delete-append_first ((j, w) ∷ done) k v rest d =
      ground (
        arith,
        eq_iff j k,
        get-append_first done k v rest d.1,
        delete-append_first done k v rest d.1,
      )

  -- The map without one entry keeps its keys apart.
  pub drop-IsDistinct :
      (done : List (String × V)) (k : String) (v : V) (rest : List (String × V))
      → IsDistinct (done ++ (k, v) ∷ rest)
      → IsDistinct (done ++ rest)
  drop-IsDistinct done k v rest d =
      rw (delete-append_first done k v rest d) at (delete-IsDistinct k (done ++ (k, v) ∷ rest) d)

  pub set-append_first :
      (done : List (String × V)) (k : String) (v w : V) (rest : List (String × V))
      → IsDistinct (done ++ (k, v) ∷ rest)
      → JsMap.set k w (done ++ (k, v) ∷ rest) ≡ done ++ (k, w) ∷ rest
  unfolding JsMap.set
  set-append_first [] k v w rest d = ground (arith, eq_iff k k)
  set-append_first ((j, u) ∷ done) k v w rest d =
      ground (
        arith,
        eq_iff j k,
        get-append_first done k v rest d.1,
        set-append_first done k v w rest d.1,
      )

  pub get-append :
      (j : String) (m m' : List (String × V))
      → JsMap.get j (m ++ m') ≡ or_option (JsMap.get j m) (JsMap.get j m')
  unfolding JsMap.get
  get-append j [] m' = refl
  get-append j ((k, v) ∷ m) m' = ground (arith, get-append j m m')

  -- A key that is absent goes to the end.
  pub set_absent :
      (k : String) (v : V) (m : List (String × V))
      → JsMap.has k m ≡ false
      → JsMap.set k v m ≡ m ++ (k, v) ∷ []
  unfolding JsMap.get JsMap.set
  set_absent k v [] h = refl
  set_absent k v ((j, w) ∷ m) h = ground (arith, set_absent k v m)

  pub has-append_last :
      (j k : String) (v : V) (m : List (String × V))
      → JsMap.has j (m ++ (k, v) ∷ []) ≡ (JsMap.has j m || str_eq k j)
  unfolding JsMap.get
  has-append_last j k v m = ground (arith, get-append j m ((k, v) ∷ []))
