-- ===== src/Cli/Port.antt =====
-- Which strings `ExtractPort` takes for a port.
use jpgsync.Common.{
  ℕ, ◌+◌, ◌-◌, ◌*◌, ◌≤◌, ◌<◌, ◌≡◌, ◌↔◌, refl, Bool, true, false, ◌||◌, not, List, [], ◌∷◌, Option,
  none, some, All, ltb, arith, if◌then◌else◌,
}
use jpgsync.Cli.{is_digit, extract_from, extract_port}

-- The number that digits denote behind those of `ret`.
unfoldable pub value_from : ℕ → List ℕ → ℕ
value_from ret [] = ret
value_from ret (c ∷ cs) = value_from (10 * ret + (c - b'0')) cs

value_from_ge : (ret : ℕ) (cs : List ℕ) → ret ≤ value_from ret cs
unfolding value_from
value_from_ge ret [] = omega arith
value_from_ge ret (c ∷ cs) = omega (arith, value_from_ge (10 * ret + (c - b'0')) cs)

abbrev pub IsDigit : ℕ → Type 0
IsDigit c = is_digit c ≡ true

extract_from-some :
    (ret : ℕ) (cs : List ℕ)
    → All IsDigit cs
    → value_from ret cs < 65536
    → extract_from ret cs ≡ some (value_from ret cs)
unfolding extract_from value_from
extract_from-some ret [] d h = refl
extract_from-some ret (c ∷ cs) (dc, ds) h =
    let small : ltb 0xFFFF (10 * ret + (c - b'0')) ≡ false =
      ground (arith, value_from_ge (10 * ret + (c - b'0')) cs) in
    rw (dc, small) (extract_from-some (10 * ret + (c - b'0')) cs ds h)

guarded :
    (digit over : Bool) (o : Option ℕ) (p : ℕ)
    → (if not digit || over then none else o) ≡ some p
    → (digit ≡ true) × (over ≡ false) × (o ≡ some p)
guarded true true o p e = absurd (ground arith)
guarded true false o p e = (refl, refl, e)
guarded false over o p e = absurd (ground arith)

extract_from_only :
    (ret : ℕ) (cs : List ℕ) (p : ℕ)
    → ret < 65536
    → extract_from ret cs ≡ some p
    → All IsDigit cs × (value_from ret cs ≡ p) × (p < 65536)
unfolding extract_from value_from
extract_from_only ret [] p h e = (tt, ground arith, ground arith)
extract_from_only ret (c ∷ cs) p h e =
    let (dc, small, later) = guarded (is_digit c) _ (extract_from (10 * ret + (c - b'0')) cs) p e in
    let (ds, v, lt) = extract_from_only (10 * ret + (c - b'0')) cs p (ground arith) later in
    ((dc, ds), v, lt)

-- A string gives the port `p` exactly if it has digits only, denotes `p`, and `p` fits 16 bits.
pub extract_port_lem :
    (cs : List ℕ) (p : ℕ)
    → (extract_port cs ≡ some p) ↔ (All IsDigit cs × (value_from 0 cs ≡ p) × (p < 65536))
unfolding extract_port
extract_port_lem cs p = (
  extract_from_only 0 cs p (omega arith),
  λ (d, e, h). rw e at (extract_from-some 0 cs d (omega arith)),
)
