-- ===== src/PortFilter/Alike.antt =====
-- Two dicts of `_port_allowances` in portfilter.py that allow the same, and the steps that keep them so.
use greasewood.Base.{
  true, false, some, List, [], ◌∷◌, ◌++◌, ◌==◌, list_eq, nat_eq, if◌then◌else◌, ◌≡◌, ◌⊎◌, ◌↔◌, inl,
  inr, refl, sym, ap, ◌∙◌, Text, arith, Bool-cases, Option-cases, Has, Has-append,
}
use greasewood.Base.Dict
use greasewood.Wire.Record.{NodeRecord}
use greasewood.Policy.Tags.{node_tags}
use greasewood.PortFilter.Defs.{
  Flow, flow_eq, flow_of, in_list, Allowances, is_empty, sources, add_sources, add_ports,
}
use greasewood.PortFilter.Render.{sources_of}
use greasewood.PortFilter.Order.{SameSet}

Tagged : NodeRecord → List Text → Type 0
Tagged r from = in_list (node_tags r.cred.caps (some r.cred.hostname)) from ≡ true

sources-Has :
    (rs : List NodeRecord) (from : List Text) (a : Text)
    → Has a (sources rs from)
    → (r : NodeRecord) × Has r rs × Tagged r from × (r.cred.addr ≡ a)
unfolding sources Tagged
sources-Has [] from a m = absurd m
sources-Has (r ∷ rs) from a m =
    elim (Bool-cases (in_list (node_tags r.cred.caps (some r.cred.hostname)) from)) [
      | inl t ↦ elim (inside t) [
        | inl e ↦ (r, inl refl, t, e)
        | inr m' ↦ let (s, i, x, e) = sources-Has rs from a m' in (s, inr i, x, e)
      ]
      | inr f ↦ let (s, i, x, e) = sources-Has rs from a (outside f) in (s, inr i, x, e)
    ]
  where
    inside :
        in_list (node_tags r.cred.caps (some r.cred.hostname)) from ≡ true
        → (r.cred.addr ≡ a) ⊎ Has a (sources rs from)
    inside t = ground (arith, t, m)

    outside :
        in_list (node_tags r.cred.caps (some r.cred.hostname)) from ≡ false
        → Has a (sources rs from)
    outside f = ground (arith, f, m)

Has-sources :
    (rs : List NodeRecord) (from : List Text) (a : Text) (r : NodeRecord)
    → Has r rs
    → Tagged r from
    → r.cred.addr ≡ a
    → Has a (sources rs from)
unfolding sources Tagged
Has-sources [] from a r m t e = absurd m
Has-sources (s ∷ rs) from a r (inl p) t e =
    let t' : in_list (node_tags s.cred.caps (some s.cred.hostname)) from ≡ true =
      ap (λ (z : NodeRecord). in_list (node_tags z.cred.caps (some z.cred.hostname)) from) p ∙ t in
    let e' : s.cred.addr ≡ a = ap (λ (z : NodeRecord). z.cred.addr) p ∙ e in ground (arith, t', e')
Has-sources (s ∷ rs) from a r (inr m) t e = ground (arith, Has-sources rs from a r m t e)

-- The same records, in another order or number
abbrev pub SameRecords : List NodeRecord → List NodeRecord → Type 0
SameRecords rs ss = (r : NodeRecord) → Has r rs ↔ Has r ss

pub sources-Same :
    (rs ss : List NodeRecord) (from : List Text)
    → SameRecords rs ss
    → SameSet (sources rs from) (sources ss from)
sources-Same rs ss from same a = (
  (λ m. let (r, i, t, e) = sources-Has rs from a m in Has-sources ss from a r ((same r).0 i) t e),
  (λ m. let (r, i, t, e) = sources-Has ss from a m in Has-sources rs from a r ((same r).1 i) t e),
)

pub is_empty-Same : (l m : List Text) → SameSet l m → is_empty l ≡ is_empty m
is_empty-Same [] [] same = refl
is_empty-Same [] (t ∷ m) same = absurd ((same t).1 (inl refl))
is_empty-Same (s ∷ l) [] same = absurd ((same s).0 (inl refl))
is_empty-Same (s ∷ l) (t ∷ m) same = refl

-- The same flows in the same order, each for the same addresses
abbrev pub Same : Allowances → Allowances → Type 0
Same [] [] = Unit
Same [] (_ ∷ _) = ⊥
Same (_ ∷ _) [] = ⊥
Same ((j, l) ∷ d) ((k, m) ∷ e) = (j ≡ k) × SameSet l m × Same d e

append-Same : (a b l m : List Text) → SameSet a b → SameSet l m → SameSet (a ++ l) (b ++ m)
append-Same a b l m f g t = ground (arith, Has-append a l t, Has-append b m t, f t, g t)

sources_of-cons :
    (i k : Flow) (l : List Text) (d : Allowances)
    → sources_of ((i, l) ∷ d) k ≡ (if k == i then l else sources_of d k)
unfolding sources_of
sources_of-cons i k l d = ground (arith, Dict.lookup-cons k i l d)

insert-cons :
    (i k : Flow) (a l : List Text) (d : Allowances)
    → Dict.insert k l ((i, a) ∷ d) ≡ (if k == i then (k, l) ∷ d else (i, a) ∷ Dict.insert k l d)
unfolding Dict.insert
insert-cons i k a l d = refl

insert-nil : (k : Flow) (l : List Text) → Dict.insert k l [] ≡ (k, l) ∷ []
unfolding Dict.insert
insert-nil k l = refl

-- Looking a flow up, and adding to one, go alike on both sides.
pub sources_of-Same :
    (d e : Allowances) (k : Flow) → Same d e → SameSet (sources_of d k) (sources_of e k)
sources_of-Same [] [] k s = λ t. ((λ m. m), (λ m. m))
sources_of-Same [] (_ ∷ _) k s = absurd s
sources_of-Same (_ ∷ _) [] k s = absurd s
sources_of-Same ((i, l) ∷ d) ((j, m) ∷ e) k (p, f, rest) = elim (Bool-cases (k == i)) [
  | inl t ↦
      let t' : (k == j) ≡ true = ap (λ z. k == z) (sym p) ∙ t in
      let left : sources_of ((i, l) ∷ d) k ≡ l = ground (arith, sources_of-cons i k l d) in
      let right : sources_of ((j, m) ∷ e) k ≡ m = ground (arith, sources_of-cons j k m e) in
      rw (left, right) f
  | inr n ↦
      let n' : (k == j) ≡ false = ap (λ z. k == z) (sym p) ∙ n in
      let left : sources_of ((i, l) ∷ d) k ≡ sources_of d k =
        ground (arith, sources_of-cons i k l d) in
      let right : sources_of ((j, m) ∷ e) k ≡ sources_of e k =
        ground (arith, sources_of-cons j k m e) in
      rw (left, right) (sources_of-Same d e k rest)
]

insert-Same :
    (d e : Allowances) (k : Flow) (l m : List Text)
    → Same d e
    → SameSet l m
    → Same (Dict.insert k l d) (Dict.insert k m e)
insert-Same [] [] k l m s f = rw (insert-nil k l, insert-nil k m) (refl, f, tt)
insert-Same [] (_ ∷ _) k l m s f = absurd s
insert-Same (_ ∷ _) [] k l m s f = absurd s
insert-Same ((i, a) ∷ d) ((j, b) ∷ e) k l m (p, g, rest) f = elim (Bool-cases (k == i)) [
  | inl t ↦
      let t' : (k == j) ≡ true = ap (λ z. k == z) (sym p) ∙ t in
      let left : Dict.insert k l ((i, a) ∷ d) ≡ (k, l) ∷ d =
        ground (arith, insert-cons i k a l d) in
      let right : Dict.insert k m ((j, b) ∷ e) ≡ (k, m) ∷ e =
        ground (arith, insert-cons j k b m e) in
      rw (left, right) (refl, f, rest)
  | inr n ↦
      let n' : (k == j) ≡ false = ap (λ z. k == z) (sym p) ∙ n in
      let left : Dict.insert k l ((i, a) ∷ d) ≡ (i, a) ∷ Dict.insert k l d =
        ground (arith, insert-cons i k a l d) in
      let right : Dict.insert k m ((j, b) ∷ e) ≡ (j, b) ∷ Dict.insert k m e =
        ground (arith, insert-cons j k b m e) in
      rw (left, right) (p, g, insert-Same d e k l m rest f)
]

add_sources-eq :
    (k : Flow) (srcs : List Text) (d : Allowances)
    → add_sources k srcs d ≡ Dict.insert k (sources_of d k ++ srcs) d
unfolding add_sources sources_of
add_sources-eq k srcs d = ground (arith, Option-cases (Dict.lookup k d))

pub add_ports-Same :
    (specs : List Text) (l m : List Text) (d e : Allowances)
    → SameSet l m
    → Same d e
    → Same (add_ports specs l d) (add_ports specs m e)
unfolding add_ports
add_ports-Same [] l m d e f s = s
add_ports-Same (spec ∷ specs) l m d e f s =
    add_ports-Same specs l m (add_sources (flow_of spec) l d) (add_sources (flow_of spec) m e) f (
      rw (add_sources-eq (flow_of spec) l d, add_sources-eq (flow_of spec) m e)
        (insert-Same d e (flow_of spec) (sources_of d (flow_of spec) ++ l)
          (sources_of e (flow_of spec) ++ m) s
          (append-Same (sources_of d (flow_of spec)) (sources_of e (flow_of spec)) l m
            (sources_of-Same d e (flow_of spec) s) f)))

pub keys-Same : (d e : Allowances) → Same d e → Dict.keys d ≡ Dict.keys e
unfolding Dict.keys
keys-Same [] [] s = refl
keys-Same [] (_ ∷ _) s = absurd s
keys-Same (_ ∷ _) [] s = absurd s
keys-Same ((j, l) ∷ d) ((k, m) ∷ e) (p, f, rest) = rw (p, keys-Same d e rest) refl
