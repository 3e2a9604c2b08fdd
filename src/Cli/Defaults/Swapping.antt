-- ===== src/Cli/Defaults/Swapping.antt =====
-- Which of two roots becomes the master's.
use jpgsync.Common.{
  ℕ, ◌<◌, ◌≡◌, refl, false, ◌&&◌, List, [], ◌∷◌, none, some, ◌⊎◌, inl, inr, ltb, ◌==◌, Bool-cases,
  arith,
}
use jpgsync.Cli.{Root, init_root}
use jpgsync.Cli.Defaults.{Defaults, new_root, place_roots, init_defaults}

-- The roots and the arguments of two arguments, in this order.
abbrev pub InOrder : Defaults → List ℕ → List ℕ → Root → Root → Type 0
InOrder d arg1 arg2 root1 root2 =
    (d.master_root ≡ root1) × (d.slave_root ≡ root2) × (d.args ≡ arg1 ∷ arg2 ∷ [])

-- For two arguments that are roots, of the kinds that `Root::Init` answers (0 for a local one), and
-- neither -m nor -s, the first is the master's, unless the second is remote and the first is not: then
-- the second is the master's, and the arguments are exchanged with the roots.
pub init_defaults-place_roots :
    (arg1 arg2 : List ℕ) (kind1 kind2 : ℕ) (root1 root2 : Root)
    → init_root arg1 new_root ≡ some (kind1, root1)
    → init_root arg2 new_root ≡ some (kind2, root2)
    → (d : Defaults) × (init_defaults none false (arg1 ∷ arg2 ∷ []) ≡ some d)
      × ((InOrder d arg1 arg2 root1 root2 × ((0 < kind1) ⊎ (kind2 ≡ 0)))
          ⊎ (InOrder d arg2 arg1 root2 root1 × (0 < kind2) × (kind1 ≡ 0)))
unfolding init_defaults place_roots
init_defaults-place_roots arg1 arg2 kind1 kind2 root1 root2 e1 e2 = (
  place_roots arg1 arg2 (kind1, root1) (kind2, root2),
  rw (e1, e2),
  elim (Bool-cases (ltb 0 kind2 && (kind1 == 0))) [
    | inl swap ↦ rw swap (inr ((refl, refl, refl), ground arith, ground arith))
    | inr keep ↦ rw keep (inl ((refl, refl, refl), ground arith))
  ],
)
