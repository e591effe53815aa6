-- ===== src/Vault/Hosts.antt =====
-- Which host a page has, and which domains are for it (aeon-sync/src/vault.rs).
use aeon_flow.Base.{
  ℕ, ◌≡◌, refl, ap, ◌⊎◌, inl, inr, ◌↔◌, Bool, true, ◌||◌, Bool-cases, Option, none, some, [], ◌∷◌,
  ◌++◌, ◌==◌, if◌then◌else◌, bytes_eq, bytes_eq_refl, eq_of_bytes_eq, bytes_eq_of_eq, ascii, Text,
  is_empty, trim, trim_end_by, to_ascii_lowercase, arith,
}

-- `strip_prefix`
unfoldable pub strip_prefix : Text → Text → Option Text
strip_prefix [] s = some s
strip_prefix (p ∷ ps) [] = none
strip_prefix (p ∷ ps) (c ∷ cs) = let rest = strip_prefix ps cs in if p == c then rest else none

-- `split(p).next()`, and `rsplit(c).next()`
unfoldable pub before : (ℕ → Bool) → Text → Text
before p [] = []
before p (c ∷ cs) = let rest = before p cs in if p c then [] else c ∷ rest

unfoldable pub after_last_onto : ℕ → Text → Text → Text
after_last_onto at part [] = part
after_last_onto at part (c ∷ cs) = after_last_onto at (if c == at then [] else part ++ c ∷ []) cs

abbrev or_else : Option Text → Option Text → Option Text
or_else none o = o
or_else (some s) o = some s

abbrev host_of : Text → Option Text
host_of rest =
    let authority =
      after_last_onto b'@' [] (before (λ c. c == b'/' || c == b'?' || c == b'#') rest) in
    let host =
      to_ascii_lowercase
        (trim_end_by (λ c. c == b'.') (trim (before (λ c. c == b':') authority))) in
    if is_empty host then none else some host

abbrev host_if : Option Text → Option Text
host_if none = none
host_if (some rest) = host_of rest

unfoldable pub host_from_http_url : Text → Option Text
unfolding strip_prefix before after_last_onto trim trim_end_by to_ascii_lowercase
host_from_http_url url =
    host_if (or_else (strip_prefix (ascii "https://") url) (strip_prefix (ascii "http://") url))

-- `trim_start_matches("*.")`, which takes every such prefix away
unfoldable pub trim_stars : Text → Text
trim_stars [] = []
trim_stars (c ∷ []) = c ∷ []
trim_stars (c ∷ d ∷ cs) =
    let rest = trim_stars cs in
    if c == b'*' then (if d == b'.' then rest else c ∷ d ∷ cs) else c ∷ d ∷ cs

abbrev or_text : Option Text → Text → Text
or_text none t = t
or_text (some s) t = s

unfoldable pub normalized : Text → Text
unfolding host_from_http_url trim_stars
normalized domain =
    or_text (host_from_http_url domain)
      (to_ascii_lowercase (trim_end_by (λ c. c == b'.') (trim_stars (trim domain))))

-- `ends_with`
unfoldable pub ends_with : Text → Text → Bool
ends_with [] suffix = bytes_eq [] suffix
ends_with (c ∷ cs) suffix = bytes_eq (c ∷ cs) suffix || ends_with cs suffix

unfoldable pub domain_matches_host : Text → Text → Bool
unfolding normalized ends_with
domain_matches_host domain host =
    let n = normalized domain in bytes_eq host n || ends_with host (b'.' ∷ n)

ends_with_split :
    (s suffix : Text) → ends_with s suffix ≡ true → (front : Text) × (s ≡ front ++ suffix)
unfolding ends_with
ends_with_split [] suffix h = ([], eq_of_bytes_eq [] suffix h)
ends_with_split (c ∷ cs) suffix h = elim (Bool-cases (bytes_eq (c ∷ cs) suffix)) [
  | inl t ↦ ([], eq_of_bytes_eq (c ∷ cs) suffix t)
  | inr t ↦ let (front, e) = ends_with_split cs suffix (rw t at h) in (c ∷ front, ap (λ x. c ∷ x) e)
]

ends_with-append : (front suffix : Text) → ends_with (front ++ suffix) suffix ≡ true
unfolding ends_with
ends_with-append [] [] = rw (bytes_eq_refl []) refl
ends_with-append [] (c ∷ suffix) = rw (bytes_eq_refl (c ∷ suffix)) refl
ends_with-append (c ∷ front) suffix = ground (arith, ends_with-append front suffix)

-- A domain is for a host exactly if the host is the domain, or is it behind a dot: another domain
-- that only ends with the same letters is not taken for it.
pub domain_matches_host_iff :
    (domain host : Text)
    → (domain_matches_host domain host ≡ true)
      ↔ ((host ≡ normalized domain) ⊎ ((front : Text) × (host ≡ front ++ b'.' ∷ normalized domain)))
unfolding domain_matches_host
domain_matches_host_iff domain host =
    let n = normalized domain in
    (
      λ h. elim (Bool-cases (bytes_eq host n)) [
        | inl t ↦ inl (eq_of_bytes_eq host n t)
        | inr t ↦ inr (ends_with_split host (b'.' ∷ n) (rw t at h))
      ],
      λ w. elim w [
        | inl e ↦ rw (bytes_eq_of_eq host n e) refl
        | inr (front, e) ↦ let s = ends_with-append front (b'.' ∷ n) in rw e (ground (arith, s))
      ],
    )
