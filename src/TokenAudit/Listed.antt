-- ===== src/TokenAudit/Listed.antt =====
-- The instructions of a transaction, read off its JSON without any check: what the receipt's own list
-- of rows adds up over.
use Prim.Native.String.{◌++◌ as ◌++ₛ◌}
use slipvolt.Base.{
  ℕ, suc, ◌+◌, ◌-◌, ◌≤◌, ◌≡◌, refl, sym, ap, ◌∙◌, String, Bool, true, false, not, ◌&&◌, ◌||◌, List,
  [], ◌∷◌, ◌++◌, none, some, arith, ltb, leb, ◌==◌, any, length,
}
use slipvolt.Base.Int.{pos}
use slipvolt.Base.Result.{ok, >>=-eq-ok, raise_if-passed}
use slipvolt.Value.{Value, Fields, int, arr, obj, nil, cons, end, null, get?, get, items, is_null}
use slipvolt.Burn.{u64_max}
use slipvolt.Broker.{is_text}
use slipvolt.Db.Sql.{sum, sum-append}
use slipvolt.Decimal.{decimal}
use slipvolt.TokenAudit.{
  object, array, labelled_integer, is_number, has_failed, only_item, finalized_slot,
}
use slipvolt.TokenAudit.Receipt.{
  is_signed_first, is_supported, transaction_parts, enumerate_from, inner_rows, instruction_rows,
}

-- A JSON object as its fields, a list as its items.
abbrev pub fields_of : Value → Fields
fields_of (obj d) = d
fields_of _ = end

abbrev pub items_of : Value → List Value
items_of (arr vs) = items vs
items_of _ = []

abbrev pub group_instructions : List Value → List Value
group_instructions [] = []
group_instructions (g ∷ groups) =
    items_of (get "instructions" (fields_of g)) ++ group_instructions groups

abbrev pub meta_of : Fields → Fields
meta_of result = fields_of (get "meta" result)

abbrev pub message_of : Fields → Fields
message_of result = fields_of (get "message" (fields_of (get "transaction" result)))

-- All instructions of a transaction: the outer ones, and those of every inner group.
abbrev pub instructions_of : Fields → List Value
instructions_of result =
    items_of (get "instructions" (message_of result))
    ++ group_instructions (items_of (get "innerInstructions" (meta_of result)))

pub object_fields : (v : Value) (label : String) (d : Fields) → object v label ≡ ok d → v ≡ obj d
unfolding object
object_fields (obj d') label d e = ground arith
object_fields _ label d e = ground arith

array-items_of : (v : Value) (m : String) (vs : List Value) → array v m ≡ ok vs → items_of v ≡ vs
unfolding array
array-items_of (arr xs) m vs e = cc
array-items_of v m vs e = absurd (ground arith)

labelled_integer-int :
    (v : Value) (label : String) (lo hi n : ℕ)
    → labelled_integer v label lo hi ≡ ok n
    → v ≡ int (pos n)
unfolding labelled_integer
labelled_integer-int (int (pos m)) label lo hi n e = ground arith
labelled_integer-int v label lo hi n e = absurd (ground arith)

-- The path of a row plays no part in a sum over its instruction.
sum-enumerate_from :
    (f : Value → ℕ) (i : ℕ) (prefix : String) (vs : List Value)
    → sum (λ row. f row.1) (enumerate_from i prefix vs) ≡ sum f vs
sum-enumerate_from f i prefix [] = refl
sum-enumerate_from f i prefix (v ∷ vs) = ap (λ n. f v + n) (sum-enumerate_from f (suc i) prefix vs)

inner_rows-sum :
    (f : Value → ℕ) (outer : ℕ) (seen : List ℕ) (groups : List Value) (rows : List (String × Value))
    → inner_rows outer seen groups ≡ ok rows
    → sum (λ row. f row.1) rows ≡ sum f (group_instructions groups)
unfolding inner_rows
inner_rows-sum f outer seen [] rows e =
    let same : [] ≡ rows = cc in ap (sum (λ row. f row.1)) (sym same)
inner_rows-sum f outer seen (g ∷ groups) rows e =
    let (group, eg, e1) = >>=-eq-ok (object g "inner instruction group") _ e in
    let (index, _, e2) =
      >>=-eq-ok (labelled_integer (get "index" group) "inner parent" 0 (outer - 1)) _ e1 in
    let (_, e3) = raise_if-passed (any (λ i. i == index) seen) _ _ e2 in
    let (own, eo, e4) =
      >>=-eq-ok (array (get "instructions" group) "Duplicate or invalid inner instruction group") _
        e3 in
    let (rest, er, e5) = >>=-eq-ok (inner_rows outer (index ∷ seen) groups) _ e4 in
    let listed = enumerate_from 0 ("inner:" ++ₛ decimal index ++ₛ ":") own in
    let same : listed ++ rest ≡ rows = cc in
    let mine : items_of (get "instructions" (fields_of g)) ≡ own =
      ap (λ v. items_of (get "instructions" (fields_of v)))
        (object_fields g "inner instruction group" group eg)
      ∙ array-items_of (get "instructions" group) _ own eo in
    ap (sum (λ row. f row.1)) (sym same)
    ∙ sum-append (λ row. f row.1) listed rest
    ∙ ap (λ n. n + sum (λ row. f row.1) rest)
        (sum-enumerate_from f 0 ("inner:" ++ₛ decimal index ++ₛ ":") own)
    ∙ ap (λ n. sum f own + n) (inner_rows-sum f outer (index ∷ seen) groups rest er)
    ∙ sym (sum-append f own (group_instructions groups))
    ∙ ap (λ vs. sum f (vs ++ group_instructions groups)) (sym mine)

pub instruction_rows-sum :
    (f : Value → ℕ) (meta message : Fields) (rows : List (String × Value))
    → instruction_rows meta message ≡ ok rows
    → sum (λ row. f row.1) rows
      ≡ sum f (
          items_of (get "instructions" message)
          ++ group_instructions (items_of (get "innerInstructions" meta)))
unfolding instruction_rows
instruction_rows-sum f meta message rows e =
    let (outer, eo, e1) =
      >>=-eq-ok (array (get "instructions" message) "Complete instruction metadata is required") _
        e in
    let (_, e2) = raise_if-passed (not (leb 1 (length outer) && leb (length outer) 256)) _ _ e1 in
    let (groups, eg, e3) =
      >>=-eq-ok (array (get "innerInstructions" meta) "Complete instruction metadata is required") _
        e2 in
    let (inner, ei, e4) = >>=-eq-ok (inner_rows (length outer) [] groups) _ e3 in
    let listed = enumerate_from 0 "outer:" outer in
    let (_, e5) = raise_if-passed (ltb 4096 (length (listed ++ inner))) _ _ e4 in
    let same : listed ++ inner ≡ rows = cc in
    let outer_is = array-items_of (get "instructions" message) _ outer eo in
    let groups_is = array-items_of (get "innerInstructions" meta) _ groups eg in
    ap (sum (λ row. f row.1)) (sym same)
    ∙ sum-append (λ row. f row.1) listed inner
    ∙ ap (λ n. n + sum (λ row. f row.1) inner) (sum-enumerate_from f 0 "outer:" outer)
    ∙ ap (λ n. sum f outer + n) (inner_rows-sum f (length outer) [] groups inner ei)
    ∙ sym (sum-append f outer (group_instructions groups))
    ∙ ap (λ vs. sum f (vs ++ group_instructions groups)) (sym outer_is)
    ∙ ap (λ gs. sum f (items_of (get "instructions" message) ++ group_instructions gs))
        (sym groups_is)

-- The status names a transaction of the slot that is finalized and has no error.
abbrev pub IsFinal : Value → ℕ → Type 0
IsFinal status slot =
    (s : Fields) × (get "value" (fields_of status) ≡ arr (cons (obj s) nil))
    × (is_text "finalized" (get "confirmationStatus" s) ≡ true)
    × (get? "err" s ≡ some null)
    × (get "slot" s ≡ int (pos slot))

is_null-null : (v : Value) → not (is_null v) ≡ false → v ≡ null
is_null-null null h = refl
is_null-null v h = absurd (ground arith)

neither : (a b : Bool) → (not a || b) ≡ false → (a ≡ true) × (b ≡ false)
neither a b h = ground arith

not-false : (b : Bool) → not b ≡ false → b ≡ true
not-false b h = ground arith

has_failed-null : (d : Fields) → has_failed d ≡ false → get? "err" d ≡ some null
has_failed-null d h =
    elim (get? "err" d)
        as (λ o. (elim o [ none ↦ true | some v ↦ not (is_null v) ]) ≡ false → o ≡ some null) [
          | none ↦ λ x. cc
          | some v ↦ λ x. ap some (is_null-null v x)
        ]
      h

only_item_one : (v x : Value) → only_item v ≡ ok x → v ≡ arr (cons x nil)
unfolding only_item
only_item_one (arr (cons y nil)) x e = cc
only_item_one v x e = absurd (ground arith)

pub finalized_slot-IsFinal :
    (status : Value) (slot : ℕ) → finalized_slot status ≡ ok slot → IsFinal status slot
unfolding finalized_slot
finalized_slot-IsFinal status slot e =
    let (d, ed, e1) = >>=-eq-ok (object status "signature status") _ e in
    let (v, ev, e2) = >>=-eq-ok (only_item (get "value" d)) _ e1 in
    let (s, es, e3) = >>=-eq-ok (object v "signature status") _ e2 in
    let (bad, e4) =
      raise_if-passed (not (is_text "finalized" (get "confirmationStatus" s)) || has_failed s) _ _
        e3 in
    let (n, en, e5) =
      >>=-eq-ok (labelled_integer (get "slot" s) "transaction slot" 1 u64_max) _ e4 in
    let (c, _, e6) = >>=-eq-ok (object (get "context" d) "status context") _ e5 in
    let (m, _, e7) =
      >>=-eq-ok (labelled_integer (get "slot" c) "status context slot" 1 u64_max) _ e6 in
    let (_, e8) = raise_if-passed (ltb m n) _ _ e7 in
    let same : n ≡ slot = ground arith in
    let (good, sound) =
      neither (is_text "finalized" (get "confirmationStatus" s)) (has_failed s) bad in
    (
      s,
      ap (λ x. get "value" (fields_of x)) (object_fields status "signature status" d ed)
          ∙ only_item_one (get "value" d) v ev
          ∙ ap (λ x. arr (cons x nil)) (object_fields v "signature status" s es),
      good,
      has_failed-null s sound,
      labelled_integer-int (get "slot" s) "transaction slot" 1 u64_max n en
          ∙ ap (λ k. int (pos k)) same,
    )

-- The transaction is of the slot, without error, signed first with the signature, and not newer than
-- the snapshot of the mint.
abbrev pub IsOwn : Fields → ℕ → ℕ → String → Type 0
IsOwn result slot mint_slot signature =
    (is_number slot (get "slot" result) ≡ true)
    × (slot ≤ mint_slot)
    × (get? "err" (meta_of result) ≡ some null)
    × (is_signed_first signature (get "signatures" (fields_of (get "transaction" result))) ≡ true)

pub transaction_parts-IsOwn :
    (result : Fields) (slot mint_slot : ℕ) (signature : String) (meta message : Fields)
    → transaction_parts result slot mint_slot signature ≡ ok (meta, message)
    → IsOwn result slot mint_slot signature
      × (meta_of result ≡ meta)
      × (message_of result ≡ message)
unfolding transaction_parts
transaction_parts-IsOwn result slot mint_slot signature meta message e =
    let (slots, e1) = raise_if-passed (not (is_number slot (get "slot" result))) _ _ e in
    let (_, e2) = raise_if-passed (not (is_supported (get "version" result))) _ _ e1 in
    let (newer, e3) = raise_if-passed (ltb mint_slot slot) _ _ e2 in
    let (m, em, e4) = >>=-eq-ok (object (get "meta" result) "transaction metadata") _ e3 in
    let (failed, e5) = raise_if-passed (has_failed m) _ _ e4 in
    let (t, et, e6) = >>=-eq-ok (object (get "transaction" result) "transaction payload") _ e5 in
    let (signed, e7) =
      raise_if-passed (not (is_signed_first signature (get "signatures" t))) _ _ e6 in
    let (g, eg, e8) = >>=-eq-ok (object (get "message" t) "message") _ e7 in
    let same : (m ≡ meta) × (g ≡ message) = (cc, cc) in
    let meta_is = ap fields_of (object_fields (get "meta" result) "transaction metadata" m em) in
    let transaction_is =
      ap fields_of (object_fields (get "transaction" result) "transaction payload" t et) in
    (
      (
        not-false (is_number slot (get "slot" result)) slots,
        ground arith,
        ap (get? "err") meta_is ∙ has_failed-null m failed,
        ap (λ x. is_signed_first signature (get "signatures" x)) transaction_is
            ∙ not-false (is_signed_first signature (get "signatures" t)) signed,
      ),
      meta_is ∙ same.0,
      ap (λ x. fields_of (get "message" x)) transaction_is
          ∙ ap fields_of (object_fields (get "message" t) "message" g eg)
          ∙ same.1,
    )
