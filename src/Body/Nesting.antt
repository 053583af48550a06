-- ===== src/Body/Nesting.antt =====
-- The guard on the bytes of a JSON text: it counts the nesting of arrays and objects, and what stands
-- in strings does not count. The grammar below is the independent description of such a text: it
-- looks at brackets and strings alone, so that every JSON text is of this form.
use slipvolt.Base.{
  ℕ, ◌+◌, ◌≤◌, ◌≡◌, refl, ◌∙◌, ◌⊎◌, Bool, true, false, not, ◌&&◌, ◌||◌, Option, none, some, List,
  [], ◌∷◌, arith, leb, if◌then◌else◌, length, ◌==◌, Bool-cases, inl, inr,
}
use slipvolt.Body.{Scan, scan_byte, scan_from, empty_buffer, call}
use slipvolt.Body.Chunks.{frames, joined, is_passed, scan_from-none, call-chunks}

-- In a string: a byte, or a backslash and the byte that it escapes (a quote, a backslash, n, u, ...).
pub data Piece : Type 0 where
  byte : ℕ → Piece
  escape : ℕ → Piece

-- A text: bytes outside of strings (spaces, commas, colons, the letters and digits of words and
-- numbers), strings, and arrays and objects, each with what it holds and what follows it.
pub data Text : Type 0 where
  finish : Text
  outside : ℕ → Text → Text
  quoted : List Piece → Text → Text
  array : Text → Text → Text
  object : Text → Text → Text

abbrev pub larger : ℕ → ℕ → ℕ
larger a b = if leb a b then b else a

-- The levels of arrays and objects.
unfoldable pub levels : Text → ℕ
levels finish = 0
levels (outside b t) = levels t
levels (quoted ps t) = levels t
levels (array t u) = larger (levels t + 1) (levels u)
levels (object t u) = larger (levels t + 1) (levels u)

-- The bytes of a string, up to its closing quote, before the bytes that follow.
unfoldable pub print_pieces : List Piece → List ℕ → List ℕ
print_pieces [] rest = 34 ∷ rest
print_pieces (byte b ∷ ps) rest = b ∷ print_pieces ps rest
print_pieces (escape b ∷ ps) rest = 92 ∷ b ∷ print_pieces ps rest

-- The bytes of a text, before the bytes that follow.
unfoldable pub print : Text → List ℕ → List ℕ
print finish rest = rest
print (outside b t) rest = b ∷ print t rest
print (quoted ps t) rest = 34 ∷ print_pieces ps (print t rest)
print (array t u) rest = 91 ∷ print t (93 ∷ print u rest)
print (object t u) rest = 123 ∷ print t (125 ∷ print u rest)

-- A byte of a string that no backslash precedes is no quote and no backslash.
unfoldable pub are_pieces : List Piece → Bool
are_pieces [] = true
are_pieces (byte b ∷ ps) = not (b == 34 || b == 92) && are_pieces ps
are_pieces (escape b ∷ ps) = are_pieces ps

abbrev is_bracket : ℕ → Bool
is_bracket b = b == 91 || b == 93 || b == 123 || b == 125

-- A byte outside of strings is no quote and no bracket.
unfoldable pub is_well_formed : Text → Bool
is_well_formed finish = true
is_well_formed (outside b t) = not (b == 34 || is_bracket b) && is_well_formed t
is_well_formed (quoted ps t) = are_pieces ps && is_well_formed t
is_well_formed (array t u) = is_well_formed t && is_well_formed u
is_well_formed (object t u) = is_well_formed t && is_well_formed u

-- Outside of strings, at a depth.
abbrev at : ℕ → Scan
at d = record { depth = d; in_string = false; escaped = false }

abbrev inside : ℕ → Scan
inside d = record { depth = d; in_string = true; escaped = false }

scan_from-print_pieces :
    (d : ℕ) (ps : List Piece) (rest : List ℕ)
    → are_pieces ps ≡ true
    → scan_from (some (inside d)) (print_pieces ps rest) ≡ scan_from (some (at d)) rest
unfolding scan_from scan_byte print_pieces are_pieces
scan_from-print_pieces d [] rest h = refl
scan_from-print_pieces d (byte b ∷ ps) rest h =
    ground (arith, scan_from-print_pieces d ps rest (ground arith))
scan_from-print_pieces d (escape b ∷ ps) rest h = scan_from-print_pieces d ps rest h

-- What the scan of a part with that many levels leaves to do.
abbrev goes_on : ℕ → ℕ → List ℕ → Option Scan
goes_on d h rest = if leb (d + h) 32 then scan_from (some (at d)) rest else none

scan_from-quote :
    (d : ℕ) (rest : List ℕ) → scan_from (some (at d)) (34 ∷ rest) ≡ scan_from (some (inside d)) rest
unfolding scan_from scan_byte
scan_from-quote d rest = refl

scan_from-outside :
    (d b : ℕ) (rest : List ℕ)
    → (b == 34 || is_bracket b) ≡ false
    → scan_from (some (at d)) (b ∷ rest) ≡ scan_from (some (at d)) rest
unfolding scan_from scan_byte
scan_from-outside d b rest h = ground arith

scan_from-bracket :
    (d bracket : ℕ) (rest : List ℕ)
    → (bracket ≡ 91) ⊎ (bracket ≡ 123)
    → scan_from (some (at d)) (bracket ∷ rest)
      ≡ (if leb (d + 1) 32 then scan_from (some (at (d + 1))) rest else none)
unfolding scan_from scan_byte
scan_from-bracket d bracket rest (inl e) = rw e (elim (Bool-cases (leb (d + 1) 32)) [
  | inl fits ↦ ground arith
  | inr out ↦ ground (arith, scan_from-none rest)
])
scan_from-bracket d bracket rest (inr e) = rw e (elim (Bool-cases (leb (d + 1) 32)) [
  | inl fits ↦ ground arith
  | inr out ↦ ground (arith, scan_from-none rest)
])

scan_from-closing :
    (d bracket : ℕ) (rest : List ℕ)
    → (bracket ≡ 93) ⊎ (bracket ≡ 125)
    → scan_from (some (at (d + 1))) (bracket ∷ rest) ≡ scan_from (some (at d)) rest
unfolding scan_from scan_byte
scan_from-closing d bracket rest (inl e) = rw e (ground arith)
scan_from-closing d bracket rest (inr e) = rw e (ground arith)

goes_on_nested :
    (d h k : ℕ) (rest : List ℕ)
    → (if leb (d + 1 + h) 32 then goes_on d k rest else none) ≡ goes_on d (larger (h + 1) k) rest
goes_on_nested d h k rest = ground arith

-- The brackets around a text, and what follows.
scan_from-nested :
    (d opening closing : ℕ) (t u : Text) (rest : List ℕ)
    → d ≤ 32
    → (opening ≡ 91) ⊎ (opening ≡ 123)
    → (closing ≡ 93) ⊎ (closing ≡ 125)
    → (d + 1 ≤ 32
        → scan_from (some (at (d + 1))) (print t (closing ∷ print u rest))
          ≡ goes_on (d + 1) (levels t) (closing ∷ print u rest))
    → scan_from (some (at d)) (print u rest) ≡ goes_on d (levels u) rest
    → scan_from (some (at d)) (opening ∷ print t (closing ∷ print u rest))
      ≡ goes_on d (larger (levels t + 1) (levels u)) rest
scan_from-nested d opening closing t u rest h o c inner after = elim (Bool-cases (leb (d + 1) 32)) [
  | inl fits ↦ ground (
    arith,
    scan_from-bracket d opening (print t (closing ∷ print u rest)) o,
    scan_from-closing d closing (print u rest) c,
    inner (ground arith),
    after,
  )
  | inr out ↦ ground (arith, scan_from-bracket d opening (print t (closing ∷ print u rest)) o)
]

scan_from-print :
    (d : ℕ) (t : Text) (rest : List ℕ)
    → d ≤ 32
    → is_well_formed t ≡ true
    → scan_from (some (at d)) (print t rest) ≡ goes_on d (levels t) rest
unfolding print levels is_well_formed
scan_from-print d finish rest h good = ground arith
scan_from-print d (outside b t) rest h good =
    scan_from-outside d b (print t rest) (ground arith) ∙ scan_from-print d t rest h (ground arith)
scan_from-print d (quoted ps t) rest h good =
    scan_from-quote d (print_pieces ps (print t rest))
    ∙ scan_from-print_pieces d ps (print t rest) (ground arith)
    ∙ scan_from-print d t rest h (ground arith)
scan_from-print d (array t u) rest h good =
    scan_from-nested d 91 93 t u rest h (inl refl) (inl refl)
      (λ fits. scan_from-print (d + 1) t (93 ∷ print u rest) fits (ground arith))
      (scan_from-print d u rest h (ground arith))
scan_from-print d (object t u) rest h good =
    scan_from-nested d 123 125 t u rest h (inr refl) (inr refl)
      (λ fits. scan_from-print (d + 1) t (125 ∷ print u rest) fits (ground arith))
      (scan_from-print d u rest h (ground arith))

-- However a text of strings, balanced brackets and other bytes is cut into chunks - every JSON text
-- is one -, the guard passes it on exactly where it is within the limit and its arrays and objects
-- nest at most 32 levels deep. Brackets in its strings do not count, and a backslash takes the byte
-- behind it, whichever it is, into the string.
pub call-print :
    (limit : ℕ) (t : Text) (c : List ℕ) (cs : List (List ℕ))
    → is_well_formed t ≡ true
    → joined c cs ≡ print t []
    → is_passed (call limit (frames c cs) empty_buffer)
      ≡ (leb (length (print t [])) limit && leb (levels t) 32)
unfolding scan_from
call-print limit t c cs good e =
    (call-chunks limit c cs).0 ∙ rw e (ground (arith, scan_from-print 0 t [] (omega arith) good))
