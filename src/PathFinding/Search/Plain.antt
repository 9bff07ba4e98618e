-- ===== src/PathFinding/Search/Plain.antt =====
-- pathFinding.ts: where no node identifier holds a dash, the key of a route determines it.
use mathlib.Core.Bool.{and-eq-true_iff}
use mathlib.Core.Option.{some-injective}
use stridetastic.Prelude.{
  String, ◌≡◌, sym, subst, true, List, [], ◌∷◌, All, arith, eq_iff, contains, Bool-cases, inl, inr,
  ◌==◌, some,
}
use stridetastic.Types.{ForceGraphLink}
use stridetastic.PathFinding.{valid_path}
use stridetastic.PathFinding.Search.{Item, join, target_ids}
use stridetastic.PathFinding.Search.Termination.{link_exists-target_ids}
use stridetastic.PathFinding.Search.Route.{IsRoute, first?, Item-path-injective}
use stridetastic.PathFinding.Search.Keys.{NoDash, join_injective}

All-contains :
    (P : String → Type 0) (x : String) (ys : List String) → All P ys → contains x ys ≡ true → P x
All-contains P x [] h m = cc
All-contains P x (y ∷ ys) (p, h) m = elim (Bool-cases (y == x)) [
  | inl same ↦ subst P ((eq_iff y x).0 same) p
  | inr other ↦ All-contains P x ys h (ground arith)
]

module _ (links : List ForceGraphLink) (source_id : String) where
  -- The source and the targets of the links: the nodes of every route.
  abbrev pub Plain : Type 0
  Plain = All NoDash (source_id ∷ target_ids links)

  module _ (plain : Plain) where
    valid_path-NoDash :
        (id : String) (rest : List String)
        → NoDash id
        → valid_path links (id ∷ rest) ≡ true
        → All NoDash (id ∷ rest)
    unfolding valid_path
    valid_path-NoDash id [] h v = (h, tt)
    valid_path-NoDash id (next ∷ rest) h v =
        let (step, later) = (and-eq-true_iff _ _).0 v in
        (
          h,
          valid_path-NoDash next rest
              (All-contains NoDash next (target_ids links) plain.1
                (link_exists-target_ids links id next step))
              later,
        )

    path-NoDash :
        (path : List String)
        → first? path ≡ some source_id
        → valid_path links path ≡ true
        → All NoDash path
    path-NoDash [] h v = tt
    path-NoDash (id ∷ rest) h v =
        valid_path-NoDash id rest (subst NoDash (sym (some-injective _ _ h)) plain.0) v

    join_path-injective :
        (xs ys : List String)
        → first? xs ≡ some source_id
        → first? ys ≡ some source_id
        → valid_path links xs ≡ true
        → valid_path links ys ≡ true
        → join xs ≡ join ys
        → xs ≡ ys
    join_path-injective [] ys h k v w e = absurd (cc)
    join_path-injective (x ∷ xs) [] h k v w e = absurd (cc)
    join_path-injective (x ∷ xs) (y ∷ ys) h k v w e =
        join_injective x y xs ys (path-NoDash (x ∷ xs) h v) (path-NoDash (y ∷ ys) k w) e

    pub join-route_injective :
        (a b : Item)
        → IsRoute links source_id a
        → IsRoute links source_id b
        → join a.path ≡ join b.path
        → a ≡ b
    join-route_injective a b r q e =
        Item-path-injective links source_id a b r q
          (join_path-injective a.path b.path r.first q.first r.linked q.linked e)
