-- ===== src/Uri/Query.antt =====
-- src/oauthclientbridge/utils/uri.py: what a rewritten query says.
use oauthclientbridge.Base.{
  String, ◌≡◌, refl, Option, none, some, List, [], ◌∷◌, ◌++◌, ◌==◌, map, if◌then◌else◌, arith,
  eq_iff, Bool-cases, inl, inr, subst, sym, ap, ◌∙◌, ◌≢◌,
}
use oauthclientbridge.Base.Dict.{Dict, get, put, get-put}
use oauthclientbridge.Uri.{override, pairs, rewritten}

-- The values of a key in a list of pairs, in order.
unfoldable pub values_of : String → List (String × String) → List String
values_of k [] = []
values_of k ((q, v) ∷ rest) = let more = values_of k rest in if q == k then v ∷ more else more

abbrev pub or_empty : Option (List String) → List String
or_empty none = []
or_empty (some vs) = vs

-- A dictionary whose keys are all different.
abbrev pub AreKeys : {V : Type 0} → Dict V → Type 0
AreKeys [] = Unit
AreKeys ((k, _) ∷ d) = (get k d ≡ none) × AreKeys d

values_of-append :
    (k : String) (xs ys : List (String × String))
    → values_of k (xs ++ ys) ≡ values_of k xs ++ values_of k ys
unfolding values_of
values_of-append k [] ys = refl
values_of-append k ((q, v) ∷ xs) ys = ground (arith, values_of-append k xs ys)

values_of-map :
    (k q : String) (vs : List String)
    → values_of k (map (λ v. (q, v)) vs) ≡ (if q == k then vs else [])
unfolding values_of
values_of-map k q [] = ground arith
values_of-map k q (v ∷ vs) = ground (arith, values_of-map k q vs)

values_of-pairs_missing :
    (k : String) (d : Dict (List String)) → get k d ≡ none → values_of k (pairs d) ≡ []
unfolding pairs get
values_of-pairs_missing k [] h = unfold values_of in refl
values_of-pairs_missing k ((q, vs) ∷ d) h = ground (
  arith,
  values_of-append k (map (λ v. (q, v)) vs) (pairs d),
  values_of-map k q vs,
  values_of-pairs_missing k d,
)

append_empty : (xs : List String) → xs ++ [] ≡ xs
append_empty [] = refl
append_empty (x ∷ xs) = ap (◌∷◌ x) (append_empty xs)

values_of-pairs :
    (k : String) (d : Dict (List String)) → AreKeys d → values_of k (pairs d) ≡ or_empty (get k d)
unfolding pairs get
values_of-pairs k [] h = unfold values_of in refl
values_of-pairs k ((q, vs) ∷ d) (new, h) = elim (Bool-cases (q == k)) [
  | inl e ↦
      rw (values_of-append k (map (λ v. (q, v)) vs) (pairs d), values_of-map k q vs, e)
        (rw (values_of-pairs_missing k d (subst (λ j. get j d ≡ none) ((eq_iff q k).0 e) new))
          (append_empty vs))
  | inr e ↦
      rw (values_of-append k (map (λ v. (q, v)) vs) (pairs d), values_of-map k q vs, e)
        (values_of-pairs k d h)
]

get-put_missing :
    {V : Type 0} (k j : String) (v : V) (d : Dict V)
    → k ≢ j
    → get j d ≡ none
    → get j (put k v d) ≡ none
get-put_missing k j v d ne h = ground (arith, get-put k j v d, eq_iff k j)

AreKeys-put : {V : Type 0} (k : String) (v : V) (d : Dict V) → AreKeys d → AreKeys (put k v d)
unfolding put get
AreKeys-put k v [] h = (refl, tt)
AreKeys-put k v ((j, w) ∷ d) (new, h) = elim (Bool-cases (j == k)) [
  | inl e ↦ rw e (subst (λ i. get i d ≡ none) ((eq_iff j k).0 e) new, h)
  | inr e ↦ rw e (
    get-put_missing k j v d (λ same. ground (arith, eq_iff j k, sym same)) new,
    AreKeys-put k v d h,
  )
]

AreKeys-override :
    (params : Dict String) (query : Dict (List String))
    → AreKeys query
    → AreKeys (override params query)
unfolding override
AreKeys-override [] query h = h
AreKeys-override ((k, v) ∷ params) query h =
    AreKeys-override params (put k (v ∷ []) query) (AreKeys-put k (v ∷ []) query h)

abbrev pub given : Option String → List String → List String
given none old = old
given (some v) old = v ∷ []

get-override :
    (k : String) (params : Dict String) (query : Dict (List String))
    → AreKeys params
    → or_empty (get k (override params query)) ≡ given (get k params) (or_empty (get k query))
unfolding override get
get-override k [] query h = refl
get-override k ((p, v) ∷ params) query (new, h) = elim (Bool-cases (p == k)) [
  | inl e ↦
      rw (get-override k params (put p (v ∷ []) query) h, e)
        (rw
          (subst (λ i. get i params ≡ none) ((eq_iff p k).0 e) new, get-put p k (v ∷ []) query, e))
  | inr e ↦
      rw (get-override k params (put p (v ∷ []) query) h, e) (rw (get-put p k (v ∷ []) query, e))
]

-- A rewritten query has exactly the new value of each parameter that is given, once, and the old
-- values of every other key, in their order.
pub values_of-rewritten :
    (k : String) (query : Dict (List String)) (params : Dict String)
    → AreKeys query
    → AreKeys params
    → values_of k (rewritten query params) ≡ given (get k params) (or_empty (get k query))
unfolding rewritten
values_of-rewritten k query params hq hp =
    values_of-pairs k (override params query) (AreKeys-override params query hq)
    ∙ get-override k params query hp
