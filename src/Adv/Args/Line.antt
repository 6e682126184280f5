-- ===== src/Adv/Args/Line.antt =====
-- `Tokenizer` and `ParseArgLine`. The line is a C string, so that the byte behind it can be read
-- and is no quote.
use altas.Prelude.{
  ℕ, zero, suc, ◌+◌, ◌≡◌, ◌≢◌, ◌<◌, ◌≤◌, refl, ap, ◌∙◌, ◌⊎◌, inl, inr, Bool, true, false, ◌||◌,
  List, [], ◌∷◌, ◌++◌, Option, none, some, Bytes, codes, is_empty, length, length-append,
  if◌then◌else◌, leb, ◌==◌, arith, Free, span_until, span_until-stop, span_until-length, Bool-cases,
}
use altas.Status.{Status, invalid_argument_error}
use altas.Adv.Args.{Args, parse}

-- `*p <= ' '`, where char is signed.
unfoldable pub is_space : ℕ → Bool
is_space c = leb c b' ' || leb 128 c

abbrev is_quota : ℕ → Bool
is_quota c = c == b'\'' || c == b'"'

unfoldable pub skip_space : Bytes → Bytes
skip_space [] = []
skip_space (c ∷ cs) = let later = skip_space cs in if is_space c then later else c ∷ cs

-- A word up to a blank or the end; none if a quote stands in it.
unfoldable pub word : Bytes → Option (Bytes × Bytes)
word [] = some ([], [])
word (c ∷ cs) =
    let later : Option (Bytes × Bytes) = elim (word cs) [
      | none ↦ none
      | some (token, rest) ↦ some (c ∷ token, rest)
    ] in
    if is_space c then some ([], c ∷ cs) else if is_quota c then none else later

-- The value and what follows, or the error.
abbrev pub Move : Type 0
Move = Status ⊎ (Bytes × Bytes)

move_quoted : Bytes × Bytes → Move
move_quoted (token, []) = inl (invalid_argument_error (codes "Can't find end of Quota"))
move_quoted (token, c ∷ rest) = inr (token, rest)

move_word : Option (Bytes × Bytes) → Move
move_word none = inl (invalid_argument_error (codes "Quota not first word"))
move_word (some (token, rest)) = inr (token, rest)

-- `MoveNext` behind the blanks. An empty value ends the line.
move_from : Bytes → Move
unfolding move_quoted move_word
move_from [] = inr ([], [])
move_from (c ∷ cs) = if is_quota c then move_quoted (span_until c cs) else move_word (word (c ∷ cs))

unfoldable pub move_next : Bytes → Move
unfolding move_from
move_next current = move_from (skip_space current)

cons_arg : Bytes → Option (Status ⊎ List Bytes) → Option (Status ⊎ List Bytes)
cons_arg value none = none
cons_arg value (some (inl st)) = some (inl st)
cons_arg value (some (inr args)) = some (inr (value ∷ args))

-- One round for each unit of fuel; none is out of fuel.
unfoldable pub line_loop : ℕ → Bytes → Option (Status ⊎ List Bytes)
unfolding cons_arg
line_loop zero current = none
line_loop (suc fuel) current = elim (move_next current) [
  | inl st ↦ some (inl st)
  | inr (value, rest) ↦ elim (is_empty value) [
    | true ↦ some (inr [])
    | false ↦ cons_arg value (line_loop fuel rest)
  ]
]

unfoldable pub parse_arg_line : Bytes → Option (Status ⊎ List Bytes)
parse_arg_line line = line_loop (suc (length line)) line

parse_result : Status ⊎ List Bytes → Args → Status × Args
parse_result (inl st) a = (st, a)
parse_result (inr args) a = parse args a

-- `Args::Parse` of a line.
unfoldable pub parse_line : Bytes → Args → Option (Status × Args)
unfolding parse_result
parse_line line a = elim (parse_arg_line line) [ none ↦ none | some r ↦ some (parse_result r a) ]

skip_space-length : (s : Bytes) → length (skip_space s) ≤ length s
unfolding skip_space
skip_space-length [] = omega arith
skip_space-length (c ∷ s) = ground (arith, skip_space-length s)

-- What `MoveNext` leaves of the line is shorter by the value at least.
abbrev IsShorter : ℕ → Move → Type 0
IsShorter n (inl st) = Unit {0}
IsShorter n (inr (value, rest)) = length value + length rest ≤ n

word-IsShorter : (s : Bytes) → IsShorter (length s) (move_word (word s))
unfolding word move_word
word-IsShorter [] = omega arith
word-IsShorter (c ∷ s) = elim (Bool-cases (is_space c)) [
  | inl e ↦ rw e (omega arith)
  | inr e ↦ elim (Bool-cases (is_quota c)) [
    | inl q ↦ rw (e, q) tt
    | inr q ↦ rw (e, q) (grow (word s) (word-IsShorter s))
  ]
]
  where
    grow :
        (w : Option (Bytes × Bytes))
        → IsShorter (length s) (move_word w)
        → IsShorter
            (suc (length s))
            (move_word (elim w [ none ↦ none | some (token, rest) ↦ some (c ∷ token, rest) ]))
    grow none h = tt
    grow (some (token, rest)) h = omega arith

quoted-IsShorter :
    (n : ℕ) (p : Bytes × Bytes) → length p.0 + length p.1 ≤ n → IsShorter n (move_quoted p)
unfolding move_quoted
quoted-IsShorter n (token, []) h = tt
quoted-IsShorter n (token, c ∷ rest) h = omega arith

move_from-IsShorter : (s : Bytes) → IsShorter (length s) (move_from s)
unfolding move_from
move_from-IsShorter [] = omega arith
move_from-IsShorter (c ∷ s) = elim (Bool-cases (is_quota c)) [
  | inl q ↦
      rw q
        (quoted-IsShorter (suc (length s)) (span_until c s) (omega (arith, span_until-length c s)))
  | inr q ↦ rw q (word-IsShorter (c ∷ s))
]

abbrev pub Ends : Option (Status ⊎ List Bytes) → Type 0
Ends o = (r : Status ⊎ List Bytes) × (o ≡ some r)

cons_arg-Ends :
    (value : Bytes) (o : Option (Status ⊎ List Bytes)) → Ends o → Ends (cons_arg value o)
unfolding cons_arg
cons_arg-Ends value none (r, e) = absurd cc
cons_arg-Ends value (some (inl st)) h = (inl st, refl)
cons_arg-Ends value (some (inr args)) h = (inr (value ∷ args), refl)

round-Ends :
    (n : ℕ) (loop : Bytes → Option (Status ⊎ List Bytes)) (m : Move)
    → IsShorter n m
    → ((rest : Bytes) → length rest < n → Ends (loop rest))
    → Ends (elim m [
      | inl st ↦ some (inl st)
      | inr (value, rest) ↦ elim (is_empty value) [
        | true ↦ some (inr [])
        | false ↦ cons_arg value (loop rest)
      ]
    ])
round-Ends n loop (inl st) k h = (inl st, refl)
round-Ends n loop (inr ([], rest)) k h = (inr [], refl)
round-Ends n loop (inr (c ∷ value, rest)) k h =
    cons_arg-Ends (c ∷ value) (loop rest) (h rest (omega arith))

line_loop-Ends :
    (fuel : ℕ) (current : Bytes) → length current < fuel → Ends (line_loop fuel current)
unfolding line_loop move_next
line_loop-Ends zero current h = absurd (omega arith)
line_loop-Ends (suc fuel) current h =
    round-Ends (length (skip_space current)) (line_loop fuel) (move_next current)
      (move_from-IsShorter (skip_space current))
      (λ rest k. line_loop-Ends fuel rest (omega (arith, skip_space-length current)))

-- Splitting an argument line into its arguments ends on every line.
pub parse_arg_line-Ends : (line : Bytes) → Ends (parse_arg_line line)
unfolding parse_arg_line
parse_arg_line-Ends line = line_loop-Ends (suc (length line)) line (omega arith)

-- An argument in single quotes, and a blank.
unfoldable pub quote_all : List Bytes → Bytes
quote_all [] = []
quote_all (arg ∷ args) = b'\'' ∷ (arg ++ b'\'' ∷ b' ' ∷ quote_all args)

-- The arguments can be quoted: none is empty or holds a single quote.
abbrev pub IsQuotable : List Bytes → Type 0
IsQuotable [] = Unit {0}
IsQuotable (arg ∷ args) = (arg ≢ []) × Free b'\'' arg × IsQuotable args

move_next-quoted :
    (arg rest : Bytes)
    → Free b'\'' arg
    → move_next (b'\'' ∷ (arg ++ b'\'' ∷ rest)) ≡ inr (arg, rest)
unfolding move_next move_from skip_space is_space move_quoted
move_next-quoted arg rest h = rw (span_until-stop b'\'' arg rest h)

quote_round :
    (fuel : ℕ) (arg rest : Bytes)
    → arg ≢ []
    → Free b'\'' arg
    → line_loop (suc fuel) (b'\'' ∷ (arg ++ b'\'' ∷ rest)) ≡ cons_arg arg (line_loop fuel rest)
unfolding line_loop
quote_round fuel [] rest n h = absurd (n refl)
quote_round fuel (c ∷ arg) rest n h = rw (move_next-quoted (c ∷ arg) rest h, line_loop)

line_loop-blank : (fuel : ℕ) (s : Bytes) → line_loop fuel (b' ' ∷ s) ≡ line_loop fuel s
unfolding line_loop move_next skip_space is_space
line_loop-blank zero s = refl
line_loop-blank (suc fuel) s = refl

line_loop-quote_all :
    (fuel : ℕ) (args : List Bytes)
    → length (quote_all args) < fuel
    → IsQuotable args
    → line_loop fuel (quote_all args) ≡ some (inr args)
unfolding quote_all
line_loop-quote_all zero args h q = absurd (omega arith)
line_loop-quote_all (suc fuel) [] h q = unfold line_loop move_next skip_space move_from in refl
line_loop-quote_all (suc fuel) (arg ∷ args) h (n, f, q) =
    quote_round fuel arg (b' ' ∷ quote_all args) n f
    ∙ ap (cons_arg arg) (
        line_loop-blank fuel (quote_all args)
        ∙ line_loop-quote_all fuel args
            (omega (arith, length-append arg (b'\'' ∷ b' ' ∷ quote_all args))) q)
    ∙ unfold cons_arg in refl

-- Arguments that are written in single quotes, with a blank behind each, are read back, if none is
-- empty or holds a single quote.
pub parse_arg_line-quote_all :
    (args : List Bytes) → IsQuotable args → parse_arg_line (quote_all args) ≡ some (inr args)
unfolding parse_arg_line
parse_arg_line-quote_all args q =
    line_loop-quote_all (suc (length (quote_all args))) args (omega arith) q
