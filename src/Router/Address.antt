-- ===== src/Router/Address.antt =====
-- Addresses (`parse_addr` of node/router.py) and their parts.
use Prim.Native.Char.{Char, code}
use text.Mathlib.TextLemmas.{nil-append, cons-append}
use text.Mathlib.TextEquality.{Char-path}
use zki_nevod.Base.{
  String, ◌<>◌, ◌≡◌, ◌≢◌, refl, ◌∙◌, ap, sym, Bool-cases, inl, inr, Option, none, some, ◌==◌,
  ==_iff, arith,
}
use zki_nevod.Router.{cons_part, split_at, address_of, parse_addr}

abbrev pub HasNoAt : String → Type 0
HasNoAt String.[] = Unit
HasNoAt (String.◌∷◌ c s) = (code c ≢ b'@') × HasNoAt s

at_cons : (t : String) → "@" <> t ≡ String.◌∷◌ "@" t
at_cons t = cons-append "@" String.[] t ∙ ap (String.◌∷◌ "@") (nil-append t)

pub split_at-join : (s t : String) → HasNoAt s → split_at (s <> ("@" <> t)) ≡ some (s, t)
unfolding split_at cons_part
split_at-join String.[] t h = ap split_at (nil-append ("@" <> t) ∙ at_cons t)
split_at-join (String.◌∷◌ c s) t (ne, h) =
    rw (cons-append c s ("@" <> t))
      (rw (split_at-join s t h) (ground (arith, ==_iff (code c) b'@')))

pub split_at-plain : (s : String) → HasNoAt s → split_at s ≡ none
unfolding split_at cons_part
split_at-plain String.[] h = refl
split_at-plain (String.◌∷◌ c s) (ne, h) = ground (arith, split_at-plain s h, ==_iff (code c) b'@')

-- If the text of a cell has no at sign, "cell@node" is parsed to the cell and the node,
-- whatever the node's text, and the text of the cell alone to a node.
pub parse_addr-join :
    (cell node : String)
    → HasNoAt cell
    → (parse_addr (cell <> ("@" <> node)) ≡ (some cell, node)) × (parse_addr cell ≡ (none, cell))
unfolding parse_addr address_of
parse_addr-join cell node h = (rw (split_at-join cell node h) refl, rw (split_at-plain cell h) refl)

abbrev pub join_of : Option String → String → String
join_of none node = node
join_of (some cell) node = cell <> ("@" <> node)

rejoined : String → Option (String × String) → String
rejoined addr none = addr
rejoined addr (some (cell, node)) = cell <> ("@" <> node)

rejoined_cons :
    (c : Char) (s : String) (parts : Option (String × String))
    → rejoined s parts ≡ s
    → rejoined (String.◌∷◌ c s) (cons_part c parts) ≡ String.◌∷◌ c s
unfolding rejoined cons_part
rejoined_cons c s none h = refl
rejoined_cons c s (some (cell, node)) h = cons-append c cell ("@" <> node) ∙ ap (String.◌∷◌ c) h

rejoined-split_at : (addr : String) → rejoined addr (split_at addr) ≡ addr
unfolding split_at cons_part
rejoined-split_at String.[] = unfold rejoined in refl
rejoined-split_at (String.◌∷◌ c s) = elim (Bool-cases (code c == b'@')) [
  | inl found ↦ rw found (
      unfold rejoined in
      (nil-append ("@" <> s)
        ∙ at_cons s
        ∙ ap (λ d. String.◌∷◌ d s) (sym (Char-path c "@" ((==_iff (code c) b'@').0 found)))))
  | inr other ↦ rw other (rejoined_cons c s (split_at s) (rejoined-split_at s))
]

join_of-address_of :
    (addr : String) (parts : Option (String × String))
    → join_of (address_of addr parts).0 (address_of addr parts).1 ≡ rejoined addr parts
unfolding address_of rejoined
join_of-address_of addr none = refl
join_of-address_of addr (some (cell, node)) = refl

-- What `parse_addr` returns makes up the address again: the cell, an at sign and the node, or
-- the node alone.
pub join_of-parse_addr : (addr : String) → join_of (parse_addr addr).0 (parse_addr addr).1 ≡ addr
unfolding parse_addr address_of
join_of-parse_addr addr = join_of-address_of addr (split_at addr) ∙ rejoined-split_at addr
