-- ===== src/Cache/Lru/Elements.antt =====
-- Lists of elements with distinct addresses and adapter identifiers: finding, unlinking and
-- splitting off the last.
use loraplex.Cache.Lru.{Element, element, unlink, split_back}
use loraplex.Prelude.{
  Text, str_eq_iff, if◌then◌else◌, Option, ==_iff, ◌≢◌, none, All, List, ℕ, Bool-cases, inl, inr,
  str_eq, arith, ◌==◌, ◌≡◌, some, [], ◌∷◌, ◌+◌, refl, ◌<◌, All-of_append, sym, ◌++◌, ◌⊎◌, subst,
}

abbrev pub id_of : Element → Text
id_of e = e.value.adapter_id

-- Two elements differ in their address and in their identifier.
abbrev pub Apart : Element → Element → Type 0
Apart e x = (x.handle ≢ e.handle) × (id_of x ≢ id_of e)

abbrev pub Distinct : List Element → Type 0
Distinct [] = Unit
Distinct (e ∷ es) = All (Apart e) es × Distinct es

-- The address of the element with an identifier.
unfoldable pub handle_of : Text → List Element → Option ℕ
handle_of id [] = none
handle_of id (e ∷ es) = if str_eq (id_of e) id then some e.handle else handle_of id es

-- The sum of the sizes, as an unbounded number.
unfoldable pub total : List Element → ℕ
total [] = 0
total (e ∷ es) = e.value.size + total es

pub All-unlink : (P : Element → Type 0) (h : ℕ) (es : List Element) → All P es → All P (unlink h es)
unfolding unlink
All-unlink P h [] p = tt
All-unlink P h (e ∷ es) (pe, p) = elim (Bool-cases (e.handle == h)) [
  | inl here ↦ rw here (All-unlink P h es p)
  | inr other ↦ rw other (pe, All-unlink P h es p)
]

pub unlink-Distinct : (h : ℕ) (es : List Element) → Distinct es → Distinct (unlink h es)
unfolding unlink
unlink-Distinct h [] d = tt
unlink-Distinct h (e ∷ es) (a, d) = elim (Bool-cases (e.handle == h)) [
  | inl here ↦ rw here (unlink-Distinct h es d)
  | inr other ↦ rw other (All-unlink (Apart e) h es a, unlink-Distinct h es d)
]

pub unlink_absent : (e : Element) (es : List Element) → All (Apart e) es → unlink e.handle es ≡ es
unfolding unlink
unlink_absent e [] a = refl
unlink_absent e (x ∷ es) ((differs, _), a) = ground (arith, unlink_absent e es a)

pub handle_of_absent :
    (e : Element) (es : List Element) → All (Apart e) es → handle_of (id_of e) es ≡ none
unfolding handle_of
handle_of_absent e [] a = refl
handle_of_absent e (x ∷ es) ((_, differs), a) =
    ground (arith, handle_of_absent e es a, str_eq_iff (id_of x) (id_of e))

element_absent : (e : Element) (es : List Element) → All (Apart e) es → element e.handle es ≡ none
unfolding element
element_absent e [] a = refl
element_absent e (x ∷ es) ((differs, _), a) = ground (arith, element_absent e es a)

-- The element that an identifier's address leads to has that address and that identifier.
pub element-handle_of :
    (id : Text) (h : ℕ) (es : List Element)
    → Distinct es
    → handle_of id es ≡ some h
    → (e : Element) × (element h es ≡ some e) × (e.handle ≡ h) × (id_of e ≡ id)
unfolding handle_of element
element-handle_of id h [] d eq = cc
element-handle_of id h (e ∷ es) (a, d) eq = elim (Bool-cases (str_eq (id_of e) id)) [
  | inl here ↦
      let eh : e.handle ≡ h = ground arith in
      (e, rw ((==_iff e.handle h).1 eh), eh, (str_eq_iff (id_of e) id).0 here)
  | inr other ↦
      let (x, ex, eh, ei) = element-handle_of id h es d (ground arith) in
      elim (Bool-cases (e.handle == h)) [
        | inl same ↦
            let eq' : e.handle ≡ h = (==_iff e.handle h).0 same in
            cc (rw eq' at (element_absent e es a))
        | inr differs ↦ (x, rw differs ex, eh, ei)
      ]
]

-- The element at an address is the first, and unlinking leaves the others; or it is among the others,
-- and the first stays.
pub element_cases :
    (h : ℕ) (e x : Element) (es : List Element)
    → All (Apart x) es
    → element h (x ∷ es) ≡ some e
    → ((x ≡ e) × (unlink h (x ∷ es) ≡ es))
      ⊎ ((element h es ≡ some e) × (unlink h (x ∷ es) ≡ x ∷ unlink h es))
unfolding element unlink
element_cases h e x es a eq = elim (Bool-cases (x.handle == h)) [
  | inl here ↦
      let eh : h ≡ x.handle = sym ((==_iff x.handle h).0 here) in
      inl (ground arith, rw here (subst (λ k. unlink k es ≡ es) (sym eh) (unlink_absent x es a)))
  | inr there ↦ inr (ground arith, rw there)
]

pub All-element :
    (P : Element → Type 0) (h : ℕ) (e : Element) (es : List Element)
    → All P es
    → element h es ≡ some e
    → P e
unfolding element
All-element P h e [] p eq = cc
All-element P h e (x ∷ es) (px, p) eq = elim (Bool-cases (x.handle == h)) [
  | inl here ↦ let same : x ≡ e = ground arith in rw (← same) px
  | inr there ↦ All-element P h e es p (ground arith)
]

pub handle_of-cons :
    (j : Text) (x : Element) (es : List Element)
    → handle_of j (x ∷ es) ≡ (if str_eq (id_of x) j then some x.handle else handle_of j es)
unfolding handle_of
handle_of-cons j x es = refl

pub total-cons : (x : Element) (es : List Element) → total (x ∷ es) ≡ x.value.size + total es
unfolding total
total-cons x es = refl

-- Unlinking the element at an address drops its identifier, and no other.
pub handle_of-unlink :
    (j : Text) (h : ℕ) (e : Element) (es : List Element)
    → Distinct es
    → element h es ≡ some e
    → handle_of j (unlink h es) ≡ (if str_eq (id_of e) j then none else handle_of j es)
handle_of-unlink j h e [] d eq = unfold element in cc
handle_of-unlink j h e (x ∷ es) (a, d) eq = elim (element_cases h e x es a eq) [
  | inl (same, left) ↦
      rw (left, ← same)
        (ground (arith, handle_of-cons j x es, handle_of_absent x es a, str_eq_iff (id_of x) j))
  | inr (later, left) ↦
      let differs = (All-element (Apart x) h e es a later).1 in
      rw left (
        ground (
          arith,
          differs,
          handle_of-cons j x es,
          handle_of-cons j x (unlink h es),
          handle_of-unlink j h e es d later,
          str_eq_iff (id_of x) j,
          str_eq_iff (id_of e) j,
        ))
]

-- It takes its size off the total.
pub total-unlink :
    (h : ℕ) (e : Element) (es : List Element)
    → Distinct es
    → element h es ≡ some e
    → total (unlink h es) + e.value.size ≡ total es
total-unlink h e [] d eq = unfold element in cc
total-unlink h e (x ∷ es) (a, d) eq = elim (element_cases h e x es a eq) [
  | inl (same, left) ↦ rw (left, ← same) (omega (arith, total-cons x es))
  | inr (later, left) ↦
      rw left
        (omega (arith, total-unlink h e es d later, total-cons x es, total-cons x (unlink h es)))
]

-- What is left is apart from it.
pub unlink-Apart :
    (h : ℕ) (e : Element) (es : List Element)
    → Distinct es
    → element h es ≡ some e
    → All (Apart e) (unlink h es)
unlink-Apart h e [] d eq = unfold element in cc
unlink-Apart h e (x ∷ es) (a, d) eq = elim (element_cases h e x es a eq) [
  | inl (same, left) ↦ rw (left, ← same) a
  | inr (later, left) ↦
      let (differs, differs') = All-element (Apart x) h e es a later in
      rw left ((λ eq. differs (sym eq), λ eq. differs' (sym eq)), unlink-Apart h e es d later)
]

pub unlink-bounded :
    (n h : ℕ) (es : List Element)
    → All (λ e. e.handle < n) es
    → All (λ e. e.handle < n) (unlink h es)
unlink-bounded n h es = All-unlink (λ e. e.handle < n) h es

-- `split_back` splits off the last element, if there is one.
pub split_back_cases :
    (es : List Element)
    → ((es ≡ []) × (split_back es ≡ none))
      ⊎ ((front : List Element) × (e : Element) × (es ≡ front ++ e ∷ [])
          × (split_back es ≡ some (front, e)))
unfolding split_back
split_back_cases [] = inl (refl, refl)
split_back_cases (x ∷ es) = elim (split_back_cases es) [
  | inl (empty, last) ↦ inr ([], x, rw empty, rw last)
  | inr (front, e, eq, last) ↦ inr (x ∷ front, e, rw eq, rw last)
]

pub total-append : (xs ys : List Element) → total (xs ++ ys) ≡ total xs + total ys
unfolding total
total-append [] ys = omega arith
total-append (x ∷ xs) ys = omega (arith, total-append xs ys)

-- The front of distinct elements is distinct, and holds every identifier but the last one's.
pub front-Distinct :
    (front : List Element) (e : Element) → Distinct (front ++ e ∷ []) → Distinct front
front-Distinct [] e d = tt
front-Distinct (x ∷ front) e (a, d) =
    ((All-of_append (Apart x) front (e ∷ []) a).0, front-Distinct front e d)

pub handle_of-front :
    (j : Text) (front : List Element) (e : Element)
    → Distinct (front ++ e ∷ [])
    → handle_of j front ≡ (if str_eq (id_of e) j then none else handle_of j (front ++ e ∷ []))
unfolding handle_of
handle_of-front j [] e d = ground arith
handle_of-front j (x ∷ front) e (a, d) =
    let (_, (differs, _)) = All-of_append (Apart x) front (e ∷ []) a in
    ground (arith, handle_of-front j front e d, str_eq_iff (id_of x) j, str_eq_iff (id_of e) j)
