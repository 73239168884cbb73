-- ===== src/Totp/Window.antt =====
-- Which codes `matchTOTP` accepts.
use marketplace.Base.{
  ℕ, zero, suc, ◌+◌, ◌-◌, ◌≤◌, ◌<◌, ◌≡◌, ◌≢◌, ap, subst, ◌∙◌, inl, inr, true, false, some, arith,
  leb, Bool-cases, Bytes, same_bytes, same_bytes_sound, same_bytes_refl,
}
use marketplace.Crypto.{Crypto, without_spaces, is_code, padded-is_code}
use marketplace.Totp.{totp_digits, totp_drift, totp_step, hotp, totp_code, try_steps, match_totp}

totp_code-is_code :
    (c : Crypto) (secret : Bytes) (step : ℕ) → is_code totp_digits (totp_code c secret step) ≡ true
unfolding totp_code hotp
totp_code-is_code c secret step = padded-is_code totp_digits _

module _ (c : Crypto) (secret code : Bytes) (last : ℕ) where
  try_steps_sound :
      (rounds step s : ℕ)
      → try_steps c secret code last rounds step ≡ some s
      → (last < s) × (step ≤ s) × (s < step + rounds) × (totp_code c secret s ≡ code)
  unfolding try_steps
  try_steps_sound zero step s h = cc
  try_steps_sound (suc rounds) step s h =
      ground (
        arith,
        try_steps_sound rounds (step + 1) s,
        same_bytes_sound (totp_code c secret step) code,
      )

  try_steps_complete :
      (rounds step s : ℕ)
      → last < s
      → step ≤ s
      → s < step + rounds
      → totp_code c secret s ≡ code
      → (t : ℕ) × (try_steps c secret code last rounds step ≡ some t) × (t ≤ s)
  unfolding try_steps
  try_steps_complete zero step s a b d e = absurd (omega arith)
  try_steps_complete (suc rounds) step s a b d e = elim (Bool-cases (leb step last)) [
    | inl old ↦
        let (t, found, le) =
          try_steps_complete rounds (step + 1) s a (ground arith) (omega arith) e in
        (t, rw old found, le)
    | inr fresh ↦ elim (Bool-cases (same_bytes (totp_code c secret step) code)) [
      | inl same ↦ (step, rw (fresh, same), b)
      | inr other ↦
          let (t, found, le) =
            try_steps_complete rounds (step + 1) s a
              (ground (arith, same_bytes_refl code, other_step other)) (omega arith) e in
          (t, rw (fresh, other) found, le)
    ]
  ]
    where
      other_step : same_bytes (totp_code c secret step) code ≡ false → step ≢ s
      other_step h same =
          let k : same_bytes code code ≡ false =
            subst (λ x. same_bytes x code ≡ false) (ap (totp_code c secret) same ∙ e) h in
          cc (k, same_bytes_refl code)

module _ (c : Crypto) (secret typed : Bytes) (now last : ℕ) where
  -- A typed text is accepted for a step only if the step is after the last accepted one, at most
  -- one step from the current one, and the text without its spaces is the step's code.
  pub match_totp_sound :
      (step : ℕ)
      → match_totp c secret typed now last ≡ some step
      → (last < step)
        × (totp_step now ≤ step + totp_drift)
        × (step ≤ totp_step now + totp_drift)
        × (totp_code c secret step ≡ without_spaces typed)
  unfolding match_totp
  match_totp_sound step h = ground (
    arith,
    try_steps_sound c secret (without_spaces typed) last
        (totp_step now + totp_drift + 1 - (totp_step now - totp_drift)) (totp_step now - totp_drift)
        step,
  )

  -- The code of every step that is after the last accepted one and at most one step from the
  -- current one is accepted, for that step or an earlier one of the same code.
  pub match_totp_complete :
      (step : ℕ)
      → last < step
      → totp_step now ≤ step + totp_drift
      → step ≤ totp_step now + totp_drift
      → totp_code c secret step ≡ without_spaces typed
      → (s : ℕ) × (match_totp c secret typed now last ≡ some s) × (s ≤ step)
  unfolding match_totp
  match_totp_complete step after low high same =
      let (s, found, le) =
        try_steps_complete c secret (without_spaces typed) last
          (totp_step now + totp_drift + 1 - (totp_step now - totp_drift))
          (totp_step now - totp_drift) step after (omega arith) (omega arith) same in
      (s, rw well_formed found, le)
    where
      well_formed : is_code totp_digits (without_spaces typed) ≡ true
      well_formed = subst (λ x. is_code totp_digits x ≡ true) same (totp_code-is_code c secret step)
