-- ===== src/Config/Matcher/Selection.antt =====
-- Which rule the matcher selects.
use vshift.Base.{
  ◌≡◌, refl, sym, ap, ◌∙◌, subst, ◌↔◌, Bool-cases, All-imp, ℕ, ◌≤◌, ◌<◌, true, false, Option, none,
  some, List, [], ◌∷◌, ◌++◌, arith, All, leb, if◌then◌else◌, Option-cases, inl, inr,
}
use vshift.Base.Sorting.{sorted, insert_sorted, IsSorted, IsPreorder, sorted-IsSorted}
use vshift.Input.{ProbedInput}
use vshift.Config.Criteria.{MatchRule, rule_matches}
use vshift.Config.Matcher.{by_priority, first_match, match}

module _ (probed : ProbedInput) where
  -- The choice between a rule and the best of the rules behind it.
  abbrev pub prefer : MatchRule → Option MatchRule → Option MatchRule
  prefer rule none = some rule
  prefer rule (some other) = if leb rule.priority other.priority then some rule else some other

  -- The least priority among the matching rules, and the earliest rule of that priority.
  abbrev pub best : List MatchRule → Option MatchRule
  best [] = none
  best (rule ∷ rules) =
      let rest = best rules in if rule_matches rule probed then prefer rule rest else rest

  abbrev pub IsAbove : ℕ → MatchRule → Type 0
  IsAbove bound rule = rule_matches rule probed ≡ true → bound < rule.priority

  abbrev pub IsNotBelow : ℕ → MatchRule → Type 0
  IsNotBelow bound rule = rule_matches rule probed ≡ true → bound ≤ rule.priority

  -- `rule` matches, no matching rule before it has its priority or a lower one, and no matching
  -- rule after it has a lower one.
  pub record IsFirst (rules : List MatchRule) (rule : MatchRule) : Type 0 where
    pub front : List MatchRule
    pub rest : List MatchRule
    pub split : rules ≡ front ++ rule ∷ rest
    pub accepted : rule_matches rule probed ≡ true
    pub front_above : All (IsAbove rule.priority) front
    pub rest_not_below : All (IsNotBelow rule.priority) rest

  first_match-le :
      (bound : ℕ) (rules : List MatchRule) (rule : MatchRule)
      → All (λ other. leb bound other.priority ≡ true) rules
      → first_match probed rules ≡ some rule
      → leb bound rule.priority ≡ true
  unfolding first_match
  first_match-le bound [] rule h e = cc
  first_match-le bound (other ∷ rules) rule h e =
      ground (arith, first_match-le bound rules rule h.1)

  -- Putting a rule into its place among sorted rules is a preference over what they select.
  first_match-insert_sorted :
      (rule : MatchRule) (rules : List MatchRule)
      → IsSorted by_priority rules
      → first_match probed (insert_sorted by_priority rule rules) ≡ (
          if rule_matches rule probed
          then prefer rule (first_match probed rules)
          else first_match probed rules)
  unfolding first_match
  first_match-insert_sorted rule [] h = refl
  first_match-insert_sorted rule (other ∷ rules) h =
      elim (Option-cases (first_match probed rules)) [
        | inl nothing ↦ ground (arith, first_match-insert_sorted rule rules h.1)
        | inr (found, e) ↦ ground (
          arith,
          first_match-insert_sorted rule rules h.1,
          first_match-le other.priority rules found h.0 e,
        )
      ]

  by_priority-IsPreorder : IsPreorder by_priority
  by_priority-IsPreorder = record {
    total = λ x y h. ground arith;
    trans = λ x y z h k. ground arith;
  }

  -- Sorting and taking the first match selects the same rule as one pass over the rules as given,
  -- which keeps the matching rule of least priority, and the earlier one where two are equal.
  pub match-best : (rules : List MatchRule) → match rules probed ≡ best rules
  unfolding match
  match-best [] = refl
  match-best (rule ∷ rules) =
      rw
        (first_match-insert_sorted rule (sorted by_priority rules)
          (sorted-IsSorted by_priority by_priority-IsPreorder rules))
        (rw (match-best rules))

  best-none :
      (rules : List MatchRule)
      → best rules ≡ none
      → All (λ rule. rule_matches rule probed ≡ false) rules
  best-none [] h = tt
  best-none (rule ∷ rules) h = elim (Option-cases (best rules)) [
    | inl nothing ↦ (ground arith, best-none rules nothing)
    | inr (found, e) ↦ absurd (ground arith)
  ]

  none-IsNotBelow :
      (bound : ℕ) (rules : List MatchRule) → best rules ≡ none → All (IsNotBelow bound) rules
  none-IsNotBelow bound rules h =
      All-imp (λ rule. rule_matches rule probed ≡ false) (IsNotBelow bound) rules
        (λ rule absent m. absurd (cc)) (best-none rules h)

  best-IsNotBelow :
      (bound : ℕ) (rules : List MatchRule) (rule : MatchRule)
      → best rules ≡ some rule
      → bound ≤ rule.priority
      → All (IsNotBelow bound) rules
  best-IsNotBelow bound [] rule e h = tt
  best-IsNotBelow bound (other ∷ rules) rule e h = elim (Option-cases (best rules)) [
    | inl nothing ↦ (λ m. ground arith, none-IsNotBelow bound rules nothing)
    | inr (found, e') ↦ (λ m. ground arith, best-IsNotBelow bound rules found e' (ground arith))
  ]

  -- A rule in front, which does not match or has a higher priority.
  IsFirst-cons :
      (other : MatchRule) (rules : List MatchRule) (rule : MatchRule)
      → IsAbove rule.priority other
      → IsFirst rules rule
      → IsFirst (other ∷ rules) rule
  IsFirst-cons other rules rule above f = record {
    front = other ∷ f.front;
    rest = f.rest;
    split = ap (◌∷◌ other) f.split;
    accepted = f.accepted;
    front_above = (above, f.front_above);
    rest_not_below = f.rest_not_below;
  }

  IsFirst-here :
      (other : MatchRule) (rules : List MatchRule) {rule : MatchRule}
      → other ≡ rule
      → rule_matches other probed ≡ true
      → All (IsNotBelow other.priority) rules
      → IsFirst (other ∷ rules) rule
  IsFirst-here other rules same accepted h = subst (IsFirst (other ∷ rules)) same (record {
    front = [];
    rest = rules;
    split = refl;
    accepted = accepted;
    front_above = tt;
    rest_not_below = h;
  })

  best-IsFirst :
      (rules : List MatchRule) (rule : MatchRule) → best rules ≡ some rule → IsFirst rules rule
  best-IsFirst [] rule e = cc
  best-IsFirst (other ∷ rules) rule e = elim (Bool-cases (rule_matches other probed)) [
    | inr no_match ↦
        IsFirst-cons other rules rule (λ m. cc) (best-IsFirst rules rule (ground arith))
    | inl accepted ↦ elim (Option-cases (best rules)) [
      | inl nothing ↦
          IsFirst-here other rules (ground arith) accepted
            (none-IsNotBelow other.priority rules nothing)
      | inr (found, e') ↦ elim (Bool-cases (leb other.priority found.priority)) [
        | inl low ↦
            IsFirst-here other rules (ground arith) accepted
              (best-IsNotBelow other.priority rules found e' (ground arith))
        | inr high ↦
            let same : found ≡ rule = ground arith in
            subst (IsFirst (other ∷ rules)) same
              (IsFirst-cons other rules found (λ m. ground arith) (best-IsFirst rules found e'))
      ]
    ]
  ]

  -- The rule that the matcher returns matches the file; every matching rule before it has a higher
  -- priority number, and no matching rule after it has a lower one.
  pub match-IsFirst :
      (rules : List MatchRule) (rule : MatchRule)
      → match rules probed ≡ some rule
      → IsFirst rules rule
  match-IsFirst rules rule e = best-IsFirst rules rule (sym (match-best rules) ∙ e)

  best-none_of_All :
      (rules : List MatchRule)
      → All (λ rule. rule_matches rule probed ≡ false) rules
      → best rules ≡ none
  best-none_of_All [] h = refl
  best-none_of_All (rule ∷ rules) h = ground (arith, best-none_of_All rules h.1)

  -- The matcher returns no rule exactly when no rule matches the file.
  pub match-none_iff :
      (rules : List MatchRule)
      → (match rules probed ≡ none) ↔ All (λ rule. rule_matches rule probed ≡ false) rules
  match-none_iff rules = (
    λ e. best-none rules (sym (match-best rules) ∙ e),
    λ h. match-best rules ∙ best-none_of_All rules h,
  )
