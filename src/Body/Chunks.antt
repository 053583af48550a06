-- ===== src/Body/Chunks.antt =====
-- The guard sees the body, not how it is cut into chunks.
use slipvolt.Base.{
  ℕ, ◌+◌, ◌≡◌, refl, sym, ap, ◌∙◌, Bool, true, false, ◌&&◌, Option, none, some, List, [], ◌∷◌, ◌++◌,
  arith, leb, length, length-append, is_some, Option-cases, inl, inr,
}
use slipvolt.Body.{
  Message, request, Scan, start, scan_byte, scan_from, Buffer, empty_buffer, Outcome, passed,
  take_chunk, call,
}

-- A body as it arrives: every chunk but the last is followed by more.
abbrev pub frames : List ℕ → List (List ℕ) → List Message
frames c [] = request c false ∷ []
frames c (d ∷ cs) = request c true ∷ frames d cs

abbrev pub joined : List ℕ → List (List ℕ) → List ℕ
joined c [] = c
joined c (d ∷ cs) = c ++ joined d cs

abbrev pub is_passed : Outcome → Bool
is_passed (passed ms) = true
is_passed _ = false

pub scan_from-none : (bs : List ℕ) → scan_from none bs ≡ none
unfolding scan_from
scan_from-none [] = refl
scan_from-none (b ∷ bs) = refl

pub scan_from-append :
    (s : Option Scan) (bs cs : List ℕ) → scan_from s (bs ++ cs) ≡ scan_from (scan_from s bs) cs
unfolding scan_from
scan_from-append s [] cs = refl
scan_from-append none (b ∷ bs) cs = sym (scan_from-none cs)
scan_from-append (some s) (b ∷ bs) cs = scan_from-append (scan_byte s b) bs cs

-- What a body must satisfy, as a whole.
abbrev pub accepts : ℕ → Buffer → List ℕ → Bool
accepts limit b body = leb (b.size + length body) limit && is_some (scan_from (some b.scan) body)

snoc-append : {A : Type 0} (xs : List A) (x : A) (ys : List A) → (xs ++ x ∷ []) ++ ys ≡ xs ++ x ∷ ys
snoc-append [] x ys = refl
snoc-append (y ∷ xs) x ys = ap (λ zs. y ∷ zs) (snoc-append xs x ys)

call-accepts :
    (limit : ℕ) (c : List ℕ) (cs : List (List ℕ)) (b : Buffer)
    → is_passed (call limit (frames c cs) b) ≡ accepts limit b (joined c cs)
unfolding call take_chunk
call-accepts limit c [] b = elim (Option-cases (scan_from (some b.scan) c)) [
  | inl e ↦ ground arith
  | inr (s, e) ↦ ground arith
]
call-accepts limit c (d ∷ cs) b = elim (Option-cases (scan_from (some b.scan) c)) [
  | inl e ↦
      ground
        (arith, scan_from-append (some b.scan) c (joined d cs), scan_from-none (joined d cs), e)
  | inr (s, e) ↦
      let b' : Buffer = record {
        messages = b.messages ++ request c true ∷ [];
        size = b.size + length c;
        scan = s;
      } in
      ground (
        arith,
        scan_from-append (some b.scan) c (joined d cs),
        e,
        call-accepts limit d cs b',
        length-append c (joined d cs),
      )
]

call-replays :
    (limit : ℕ) (c : List ℕ) (cs : List (List ℕ)) (b : Buffer) (ms : List Message)
    → call limit (frames c cs) b ≡ passed ms
    → ms ≡ b.messages ++ frames c cs
unfolding call take_chunk
call-replays limit c [] b ms e = elim (Option-cases (scan_from (some b.scan) c)) [
  | inl x ↦ ground arith
  | inr (s, x) ↦ ground arith
]
call-replays limit c (d ∷ cs) b ms e = elim (Option-cases (scan_from (some b.scan) c)) [
  | inl x ↦ ground arith
  | inr (s, x) ↦
      let b' : Buffer = record {
        messages = b.messages ++ request c true ∷ [];
        size = b.size + length c;
        scan = s;
      } in
      call-replays limit d cs b' ms (ground arith)
      ∙ snoc-append b.messages (request c true) (frames d cs)
]

-- However a body is cut into chunks, it is passed on exactly where it is within the limit as a whole
-- and its bytes, read in one go, never nest deeper than 32 levels; and what is passed on are the
-- messages that came, in their order.
pub call-chunks :
    (limit : ℕ) (c : List ℕ) (cs : List (List ℕ))
    → (is_passed (call limit (frames c cs) empty_buffer)
        ≡ (leb (length (joined c cs)) limit && is_some (scan_from (some start) (joined c cs))))
      × ((ms : List Message) → call limit (frames c cs) empty_buffer ≡ passed ms → ms ≡ frames c cs)
call-chunks limit c cs =
    (ground (arith, call-accepts limit c cs empty_buffer), call-replays limit c cs empty_buffer)
