-- ===== src/Database/Builder/Pages.antt =====
-- framework/database/builder.go: the pages of Paginate.
use oniworks.Prelude.{
  ℕ, suc, ◌+◌, ◌-◌, ◌*◌, ◌/◌, ◌%◌, ◌^◌, ◌≤◌, ◌<◌, ◌≡◌, ◌↔◌, sym, subst, ap, ◌∙◌, arith,
  if◌then◌else◌, ltb, leb, ◌==◌, nat_eq, inl, inr, Bool-cases,
}
use native.Mathlib.Nat.{mul-le-mul_right, mul-le-mul_left, suc-mul, div-add-mod', mod-lt}
use oniworks.Database.Builder.Terminal.{Page, page_of, at_least_one, per_page_of, last_page_of}

-- A product with a larger factor exceeds by the other factor.
mul_step : (a b s : ℕ) → a < b → a * s + s ≤ b * s
mul_step a b s h =
    let more : suc a * s ≤ b * s = mul-le-mul_right s h in
    let split : suc a * s ≡ a * s + s = omega arith in omega (arith, more, split)

suc-mul' : (n s : ℕ) → (n + 1) * s ≡ n * s + s
suc-mul' n s = ap (λ (i : ℕ). i * s) (omega arith) ∙ suc-mul n s

pages_iff :
    (n q size r total : ℕ)
    → 1 ≤ n
    → q * size + r ≡ total
    → r < size
    → (n ≤ (if r == 0 then q else q + 1)) ↔ ((n - 1) * size < total)
pages_iff n q size r total hn whole low = elim (Bool-cases (r == 0)) [
  | inl even ↦ rw even (
    λ le. let more = mul_step (n - 1) q size (omega (arith, le, hn)) in ground arith,
    λ lt. elim (Bool-cases (leb n q)) [
      | inl within ↦ ground arith
      | inr beyond ↦
          let more : q * size ≤ (n - 1) * size = mul-le-mul_right size (ground arith) in
          absurd (ground arith)
    ],
  )
  | inr odd ↦ rw odd (
    λ le.
        let more : (n - 1) * size ≤ q * size = mul-le-mul_right size (omega (arith, le, hn)) in
        ground arith,
    λ lt. elim (Bool-cases (leb n (q + 1))) [
      | inl within ↦ ground arith
      | inr beyond ↦ let more = mul_step q (n - 1) size (ground arith) in absurd (ground arith)
    ],
  )
]

-- The pages up to the last one are those that begin within the total.
last_page_of_iff :
    (n size total : ℕ)
    → 1 ≤ n
    → 1 ≤ size
    → 1 ≤ total
    → total < 2 ^ 63
    → (n ≤ last_page_of total size) ↔ ((n - 1) * size < total)
unfolding last_page_of
last_page_of_iff n size total hn hs ht small =
    let q = total / size in
    let r = total % size in
    let whole : q * size + r ≡ total = div-add-mod' total size in
    let low : r < size = mod-lt total (omega (arith, hs)) in
    let fits : q * 1 ≤ q * size = mul-le-mul_left q hs in
    let all = pages_iff n q size r total hn whole low in
    let same : last_page_of total size ≡ (if r == 0 then q else q + 1) = ground arith in
    (
      λ le. all.0 (subst (λ (i : ℕ). n ≤ i) same le),
      λ lt. subst (λ (i : ℕ). n ≤ i) (sym same) (all.1 lt),
    )

-- With a page and a size of at least 1 and below the range of an int, and at least one row: the page
-- ends within the total and has at most as many rows as its size; it has rows just if it is not
-- behind the last page; and the page after it begins where it ends.
pub page_of_lem :
    (page size total : ℕ)
    → 1 ≤ page
    → 1 ≤ size
    → 1 ≤ total
    → total < 2 ^ 63
    → (page + 1) * size < 2 ^ 63
    → let p = page_of page size total in
      (p.to ≤ total)
      × (p.to < p.from + size)
      × ((page ≤ p.last_page) ↔ (p.from ≤ p.to))
      × (page < p.last_page → (page_of (page + 1) size total).from ≡ p.to + 1)
unfolding page_of at_least_one per_page_of
page_of_lem page size total hp hs ht small range =
    let x = (page - 1) * size in
    let this : page * size ≡ x + size =
      ap (λ (i : ℕ). i * size) (omega arith) ∙ suc-mul (page - 1) size in
    let next : (page + 1) * size ≡ x + size + size = suc-mul' page size ∙ omega (arith, this) in
    let last = last_page_of_iff page size total hp hs ht small in
    let after = last_page_of_iff (page + 1) size total (omega arith) hs ht small in
    let high : (page + 1) * 1 ≤ (page + 1) * size = mul-le-mul_left (page + 1) hs in
    let wide : 1 * size ≤ (page + 1) * size = mul-le-mul_right size (omega arith) in
    let own_page : at_least_one page ≡ page = ground arith in
    let own_next : at_least_one (page + 1) ≡ page + 1 = ground arith in
    let own_size : per_page_of size ≡ size = ground arith in
    let this_from : (page_of page size total).from ≡ x + 1 =
      rw (page_of, own_page, own_size) (ground arith) in
    let this_to : (page_of page size total).to
        ≡ (if ltb total (x + size) then total else x + size) =
      rw (page_of, own_page, own_size) (ground arith) in
    let next_from : (page_of (page + 1) size total).from ≡ page * size + 1 =
      rw (page_of, own_next, own_size) (ground arith) in
    let last_page : (page_of page size total).last_page ≡ last_page_of total size =
      ap (last_page_of total) own_size in
    let p : Page = page_of page size total in
    let q : Page = page_of (page + 1) size total in
    let behind : (page + 1 - 1) * size ≡ page * size = ap (λ (i : ℕ). i * size) (omega arith) in
    (
      subst (λ (i : ℕ). i ≤ total) (sym this_to) (ground arith),
      rw (this_to, this_from) (ground arith),
      (
        λ le.
            let lt : x < total = last.0 (subst (λ (i : ℕ). page ≤ i) last_page le) in
            rw (this_to, this_from) (ground arith),
        λ le.
            let le' : x + 1 ≤ (if ltb total (x + size) then total else x + size) =
              rw (this_to, this_from) at le in
            subst (λ (i : ℕ). page ≤ i) (sym last_page) (last.1 (ground arith)),
      ),
      λ lt.
          let more : page + 1 ≤ last_page_of total size =
            omega (arith, subst (λ (i : ℕ). page < i) last_page lt) in
          let room = after.0 more in next_from ∙ rw this_to (ground arith),
    )
