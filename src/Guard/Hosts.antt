-- ===== src/Guard/Hosts.antt =====
-- Which hosts are under a domain, and which label of a host is taken for an organization.
use labkiosk.Shared.{
  ℕ, zero, suc, ◌-◌, ◌≡◌, ◌∙◌, ◌↔◌, ◌⊎◌, inl, inr, refl, sym, ap, true, false, ◌||◌, none, some,
  List, [], ◌∷◌, ◌++◌, ◌==◌, nat_eq, units_comparable, units_eq_iff, length, length-append, drop,
  take-append-drop, ends_with, without_end, includes_unit, arith, Bool-cases, Option-cases,
}
use labkiosk.Web.{Runtime}
use labkiosk.Guard.{
  is_host_under, clean_base, clean_subdomain, host_subdomain, is_ip_literal, slug_of, slug_under,
  unless_reserved, is_reserved_name,
}

drop_append {ℓ} : {A : Type ℓ} (n : ℕ) (xs ys : List A) → n ≡ length xs → drop n (xs ++ ys) ≡ ys
drop_append zero [] ys h = refl
drop_append zero (x ∷ xs) ys h = absurd (omega arith)
drop_append (suc n) [] ys h = absurd (omega arith)
drop_append (suc n) (x ∷ xs) ys h = drop_append n xs ys (omega arith)

ends_with-append : (end prefix : List ℕ) → ends_with end (prefix ++ end) ≡ true
ends_with-append end prefix = (units_eq_iff _ end).1 (
    drop_append (length (prefix ++ end) - length end) prefix end
      (omega (arith, length-append prefix end)))

ends_with_lem : (end text : List ℕ) → ends_with end text ≡ true → text ≡ without_end end text ++ end
ends_with_lem end text h =
    sym (take-append-drop (length text - length end) text)
    ∙ ap (λ rest. without_end end text ++ rest) ((units_eq_iff _ end).0 h)

under_or :
    (host base : List ℕ)
    → ((host == base || ends_with (b'.' ∷ base) host) ≡ true)
      ↔ ((host ≡ base) ⊎ ((prefix : List ℕ) × (host ≡ prefix ++ b'.' ∷ base)))
under_or host base = (
  λ h. elim (Bool-cases (host == base)) [
    | inl same ↦ inl ((units_eq_iff host base).0 same)
    | inr other ↦
        inr
          (without_end (b'.' ∷ base) host, ends_with_lem (b'.' ∷ base) host (ground (arith, other)))
  ],
  λ h. elim h [
    | inl same ↦ let equal = (units_eq_iff host base).1 same in ground (arith, equal)
    | inr (prefix, whole) ↦
        rw whole (let ends = ends_with-append (b'.' ∷ base) prefix in ground (arith, ends))
  ],
)

module _ (runtime : Runtime) where
  is_host_under_lem :
      (host base : List ℕ) (c : ℕ) (cs : List ℕ)
      → clean_base runtime (c ∷ cs) ≡ base
      → is_host_under runtime host (c ∷ cs) ≡ (
          runtime.to_lower_case host == base
          || ends_with (b'.' ∷ base) (runtime.to_lower_case host))
  unfolding is_host_under
  is_host_under_lem host base c cs h = rw h refl

  -- A host is under a domain exactly if it is the domain itself, or what follows a dot in it is; case
  -- and a dot that the domain begins with do not count.
  pub is_host_under_iff :
      (host : List ℕ) (c : ℕ) (cs : List ℕ)
      → (is_host_under runtime host (c ∷ cs) ≡ true) ↔ (
          (runtime.to_lower_case host ≡ clean_base runtime (c ∷ cs))
          ⊎ ((prefix : List ℕ) × (runtime.to_lower_case host
                ≡ prefix ++ b'.' ∷ clean_base runtime (c ∷ cs))))
  is_host_under_iff host c cs =
      let whole = is_host_under_lem host (clean_base runtime (c ∷ cs)) c cs refl in
      let split = under_or (runtime.to_lower_case host) (clean_base runtime (c ∷ cs)) in
      (λ h. split.0 (sym whole ∙ h), λ h. whole ∙ split.1 h)

  slug_under_lem :
      (suffix host slug : List ℕ)
      → slug_under runtime suffix host ≡ some slug
      → (ends_with suffix host ≡ true)
        × (includes_unit b'.' (without_end suffix host) ≡ false)
        × (slug ≡ clean_subdomain runtime (without_end suffix host))
  slug_under_lem suffix host slug h = ground arith

  unless_reserved_lem :
      (name slug : List ℕ)
      → unless_reserved runtime name ≡ some slug
      → (name ≡ slug) × ((slug == []) ≡ false) × (is_reserved_name slug ≡ false)
  unless_reserved_lem name slug h = ground arith

  -- A host that gives an organization: no address, and its label is not reserved.
  host_subdomain_lem :
      (host base slug : List ℕ)
      → host_subdomain runtime host base ≡ some slug
      → (is_ip_literal host ≡ false)
        × (slug_of runtime base host ≡ some slug)
        × ((slug == []) ≡ false)
        × (is_reserved_name slug ≡ false)
  unfolding host_subdomain
  host_subdomain_lem host base slug h = elim (Bool-cases (is_ip_literal host)) [
    | inl address ↦ let wrong : none ≡ some slug = rw (address, host_subdomain) at h in cc
    | inr name ↦ elim (Option-cases (slug_of runtime base host)) [
      | inl absent ↦ let wrong : none ≡ some slug = rw (name, absent, host_subdomain) at h in cc
      | inr (label, found) ↦
          let kept : unless_reserved runtime label ≡ some slug =
            rw (name, found, host_subdomain) at h in
          let (same, filled, free) = unless_reserved_lem label slug kept in
          (name, found ∙ ap some same, filled, free)
    ]
  ]

  -- With a domain set, a host gives an organization only if it is exactly one label, a dot and the
  -- domain, and no IP address; the name is that label cleaned, not empty and not reserved.
  pub host_subdomain_anchored :
      (host : List ℕ) (c : ℕ) (cs slug : List ℕ)
      → host_subdomain runtime host (c ∷ cs) ≡ some slug
      → (label : List ℕ) × (host ≡ label ++ b'.' ∷ clean_base runtime (c ∷ cs))
        × (includes_unit b'.' label ≡ false)
        × (slug ≡ clean_subdomain runtime label)
        × ((slug == []) ≡ false)
        × (is_reserved_name slug ≡ false)
        × (is_ip_literal host ≡ false)
  host_subdomain_anchored host c cs slug h =
      let suffix = b'.' ∷ clean_base runtime (c ∷ cs) in
      let (name, found, filled, free) = host_subdomain_lem host (c ∷ cs) slug h in
      let (ends, single, same) = slug_under_lem suffix host slug found in
      (without_end suffix host, ends_with_lem suffix host ends, single, same, filled, free, name)
