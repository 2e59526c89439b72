-- ===== src/Startup/Port.antt =====
-- httpserver.c: the port that `main` reads in its last argument.
use cse130_asgn.Base.{
  ℕ, ◌+◌, ◌-◌, false, ◌&&◌, List, [], ◌∷◌, ◌++◌, some, inr, ◌⊎◌, done, ltb, leb, ◌<◌, if◌then◌else◌,
  length, get_elem?, All, ◌≡◌, ◌≢◌, refl, ap, arith, length-append, get_elem?-append,
}
use cse130_asgn.StrView.Trim.{Trimmed, padded}
use cse130_asgn.Server.Parse.Field.{number, parse_to_int-number}
use cse130_asgn.Startup.{
  Arg, Exit, exits, invalid_port, uint16_max, find_nul, port_of, port_text, read_port,
}

find_nul-length :
    (text rest : List ℕ) (p : ℕ)
    → All (λ c. c ≢ 0) text
    → find_nul (text ++ 0 ∷ rest) p ≡ done (p + length text)
unfolding find_nul
find_nul-length [] rest p h = ap done (omega arith)
find_nul-length (c ∷ cs) rest p h = ground (arith, h.0, find_nul-length cs rest (p + 1) h.1)

-- The port that a text means: a number from 1 to the largest uint16_t, modulo 2 ^ 64.
pub port_named : List Arg → List ℕ → Exit ⊎ ℕ
port_named argv text =
    if leb 1 (number text) && leb (number text) uint16_max
    then inr (number text)
    else exits (invalid_port (get_elem? argv 1))

port_of-port_named :
    (argv : List Arg) (text : List ℕ) → port_of argv (number text) ≡ port_named argv text
unfolding port_of port_named
port_of-port_named argv text = in_range (number text)
  where
    in_range :
        (n : ℕ)
        → port_of argv n
          ≡ (if leb 1 n && leb n uint16_max then inr n else exits (invalid_port (get_elem? argv 1)))
    in_range n = ground arith

some_in : (front : List Arg) → front ≢ [] → 0 < length front
some_in [] h = absurd (h refl)
some_in (x ∷ xs) h = omega arith

module _ (front : List Arg) (m : ℕ) (text : List ℕ) (n : ℕ) where
  port_text-port_named :
      (argv : List Arg)
      → All (λ c. c ≢ 0) (padded m text n)
      → Trimmed text
      → port_text argv (some (padded m text n)) ≡ done (port_named argv text)
  unfolding port_text
  port_text-port_named argv no_nul t =
      rw
        (
          find_nul-length (padded m text n) [] 0 no_nul,
          parse_to_int-number [] m text n (0 ∷ []) 0 (0 + length (padded m text n)) refl refl t,
          port_of-port_named argv text,
        )
        refl

  -- With more than one argument, the last of them a text with spaces around it or not, `read_port`
  -- takes the text for a port if it is the number of one, and else ends the process with a message
  -- that names the first argument behind the program's name.
  pub read_port-port_named :
      front ≢ []
      → All (λ c. c ≢ 0) (padded m text n)
      → Trimmed text
      → read_port (front ++ padded m text n ∷ [])
        ≡ done (port_named (front ++ padded m text n ∷ []) text)
  unfolding read_port
  read_port-port_named some_front no_nul t =
      let many : ltb (length (front ++ padded m text n ∷ [])) 2 ≡ false =
        ground (arith, length-append front (padded m text n ∷ []), some_in front some_front) in
      let last : length (front ++ padded m text n ∷ []) - 1 ≡ length front =
        omega (arith, length-append front (padded m text n ∷ [])) in
      rw
        (
          many,
          last,
          get_elem?-append front (padded m text n) [] (length front) refl,
          port_text-port_named (front ++ padded m text n ∷ []) no_nul t,
        )
        refl
