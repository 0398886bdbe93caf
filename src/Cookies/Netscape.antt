-- ===== src/Cookies/Netscape.antt =====
-- A cookie written as a line is read back.
use aniparse.Prelude.{
  ℕ, suc, ◌^◌, ◌≤◌, ◌<◌, Bool, true, false, [], ◌∷◌, ◌++◌, Option, none, some, ◌≡◌, refl, ap, ◌∙◌,
  ◌≢◌, arith, Bytes, bytes_eq, has_prefix, if◌then◌else◌, All, All-append,
}
use aniparse.Prelude.Int.{ℤ, abs, scale, truncate}
use aniparse.Prelude.Decimal.{to_string, from_chars-to_string, to_string-printable}
use aniparse.Cookies.{
  Cookie, httponly_prefix, cut_tab, split_fields, http_only_domain, is_true, is_zero, expires_of,
  cookie_of, parse_netscape_line, expires_seconds, flag, to_netscape_line,
}

-- No tab, which ends a field.
abbrev pub NoTab : Bytes → Type 0
NoTab = All (λ c. c ≢ b'\t')

cut_tab-append : (a rest : Bytes) → NoTab a → cut_tab (a ++ (b'\t' ∷ rest)) ≡ some (a, rest)
unfolding cut_tab
cut_tab-append [] rest h = refl
cut_tab-append (c ∷ a) rest h = ground (arith, cut_tab-append a rest h.1, h.0)

split_fields-append :
    (k : ℕ) (a rest : Bytes)
    → NoTab a
    → split_fields (suc (suc k)) (a ++ (b'\t' ∷ rest)) ≡ a ∷ split_fields (suc k) rest
unfolding split_fields
split_fields-append k a rest h = rw (cut_tab-append a rest h, split_fields) refl

flag-NoTab : (b : Bool) → NoTab (flag b)
flag-NoTab true = omega arith
flag-NoTab false = omega arith

is_true-flag : (b : Bool) → is_true (flag b) ≡ b
unfolding is_true bytes_eq
is_true-flag true = refl
is_true-flag false = refl

printable-NoTab : (s : Bytes) → All (λ c. b'-' ≤ c) s → NoTab s
printable-NoTab [] h = tt
printable-NoTab (c ∷ s) h = (omega (arith, h.0), printable-NoTab s h.1)

-- The domain field of a line.
abbrev domain_field : Cookie → Bytes
domain_field c = (if c.http_only then httponly_prefix else []) ++ c.domain

seven_fields :
    (a b c d e f g : Bytes)
    → NoTab a
    → NoTab b
    → NoTab c
    → NoTab d
    → NoTab e
    → NoTab f
    → split_fields 7 (
        a
        ++ (b'\t'
            ∷ (b
                ++ (b'\t'
                    ∷ (c ++ (b'\t' ∷ (d ++ (b'\t' ∷ (e ++ (b'\t' ∷ (f ++ (b'\t' ∷ g))))))))))))
      ≡ a ∷ b ∷ c ∷ d ∷ e ∷ f ∷ g ∷ []
seven_fields a b c d e f g ha hb hc hd he hf =
    split_fields-append 5 a _ ha
    ∙ ap (◌∷◌ a) (
        split_fields-append 4 b _ hb
        ∙ ap (◌∷◌ b) (
            split_fields-append 3 c _ hc
            ∙ ap (◌∷◌ c) (
                split_fields-append 2 d _ hd
                ∙ ap (◌∷◌ d) (
                    split_fields-append 1 e _ he
                    ∙ ap (◌∷◌ e) (split_fields-append 0 f _ hf ∙ unfold split_fields in refl)))))

http_only_domain_lem :
    (b : Bool) (d : Bytes)
    → has_prefix httponly_prefix d ≡ false
    → http_only_domain ((if b then httponly_prefix else []) ++ d) ≡ (d, b)
unfolding http_only_domain
http_only_domain_lem true d h = unfold has_prefix in refl
http_only_domain_lem false d h = rw h refl

mark-NoTab : (b : Bool) → NoTab (if b then httponly_prefix else [])
mark-NoTab true = omega arith
mark-NoTab false = tt

module _ (ticks : ℕ) where
  -- What is left of an expiry: whole seconds, and none at the epoch.
  abbrev pub stored_expires : Option ℤ → Option ℤ
  stored_expires none = none
  stored_expires (some t) =
      if is_zero (truncate t ticks) then none else some (scale (truncate t ticks) ticks)

  pub record IsLine (c : Cookie) : Type 0 where
    pub name_field : NoTab c.name
    pub domain_field : NoTab c.domain
    pub path_field : NoTab c.path
    pub unmarked : has_prefix httponly_prefix c.domain ≡ false
    pub in_range : abs (expires_seconds ticks c.expires) < 2 ^ 63

  expires-stored :
      (e : Option ℤ)
      → abs (expires_seconds ticks e) < 2 ^ 63
      → expires_of ticks (to_string (expires_seconds ticks e)) ≡ stored_expires e
  unfolding expires_of
  expires-stored none h =
      rw (from_chars-to_string (expires_seconds ticks none) h) (unfold expires_seconds in refl)
  expires-stored (some t) h =
      rw (from_chars-to_string (expires_seconds ticks (some t)) h) (unfold expires_seconds in refl)

  -- A cookie whose name, domain and path hold no tab, whose domain does not itself begin with the
  -- HttpOnly mark and whose expiry fits 64 bits is read back from its line as it was, whatever its
  -- value holds, but for the expiry: it comes back in whole seconds, and not at all when those are 0.
  pub parse-to_netscape_line :
      (c : Cookie)
      → IsLine c
      → parse_netscape_line ticks (to_netscape_line ticks c)
        ≡ some (record c { expires = stored_expires c.expires })
  unfolding parse_netscape_line to_netscape_line
  parse-to_netscape_line c h =
      ap (cookie_of ticks) (
        seven_fields (domain_field c) (flag c.include_subdomains) c.path (flag c.secure)
          (to_string (expires_seconds ticks c.expires)) c.name c.value
          (All-append (λ x. x ≢ b'\t') (if c.http_only then httponly_prefix else []) c.domain
            (mark-NoTab c.http_only) h.domain_field)
          (flag-NoTab c.include_subdomains) h.path_field (flag-NoTab c.secure)
          (printable-NoTab _ (to_string-printable (expires_seconds ticks c.expires))) h.name_field)
      ∙ unfold cookie_of in
        rw
          (
            http_only_domain_lem c.http_only c.domain h.unmarked,
            is_true-flag c.include_subdomains,
            is_true-flag c.secure,
            expires-stored c.expires h.in_range,
          )
          refl
