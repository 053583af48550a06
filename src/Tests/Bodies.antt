-- ===== src/Tests/Bodies.antt =====
-- The guard on bodies at concrete bytes.
use slipvolt.Base.{ℕ, ◌≡◌, refl, ◌&&◌, true, some, List, [], ◌∷◌, leb, length, is_some}
use slipvolt.Body.{Message, start, passed, scan_from, empty_buffer, call}
use slipvolt.Body.Chunks.{frames, joined, is_passed, call-chunks}
use slipvolt.Body.Nesting.{
  Text, finish, outside, quoted, array, object, escape, print, print_pieces, levels, is_well_formed,
  are_pieces, call-print,
}

-- {"\n":[ ]} in two chunks, the first of which ends with the backslash
abbrev head : List ℕ
head = 123 ∷ 34 ∷ 92 ∷ []

abbrev tail : List ℕ
tail = 110 ∷ 34 ∷ 58 ∷ 91 ∷ 32 ∷ 93 ∷ 125 ∷ []

abbrev json : Text
json = object (quoted (escape 110 ∷ []) (outside 58 (array (outside 32 finish) finish))) finish

call-chunks_example :
    (is_passed (call 100 (frames head (tail ∷ [])) empty_buffer) ≡ (
      leb (length (joined head (tail ∷ []))) 100
      && is_some (scan_from (some start) (joined head (tail ∷ [])))))
    × ((ms : List Message)
        → call 100 (frames head (tail ∷ [])) empty_buffer ≡ passed ms
        → ms ≡ frames head (tail ∷ []))
call-chunks_example = call-chunks 100 head (tail ∷ [])

printed : joined head (tail ∷ []) ≡ print json []
unfolding print print_pieces
printed = refl

well_formed : is_well_formed json ≡ true
unfolding is_well_formed are_pieces
well_formed = refl

call-print_example :
    is_passed (call 100 (frames head (tail ∷ [])) empty_buffer)
    ≡ (leb (length (print json [])) 100 && leb (levels json) 32)
call-print_example = call-print 100 json head (tail ∷ []) well_formed printed
