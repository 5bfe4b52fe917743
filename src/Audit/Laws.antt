-- ===== src/Audit/Laws.antt =====
-- modules/audit/audit-service.ts: what metadata can reach the audit table.
use Prim.Native.String.{String}
use scope_is_team_management.Base.{
  ℕ, refl, any, Memᴰ, mem-filter, mem_of_filter, Bool-cases, inl, inr, ◌↔◌, ◌≤◌, ◌==◌, ◌&&◌, Bool,
  leb, map, same_text, length, length-append, ◌+◌, ◌≡◌, ◌⊎◌, true, false, List, [], ◌∷◌, arith,
  Text, All, ◌||◌, not, codes, same_text_iff,
}
use text.Mathlib.TextEquality.{eq_iff}
use scope_is_team_management.Audit.{
  MetaValue, words, flag, number, balances, lower_unit, Metadata, is_blocked, is_refusal_code,
  is_refusal_reason, sanitize_audit_metadata, AuditEvent, AuditRow, write_audit_event, audit_row,
}

-- A code unit that spells a small ASCII letter: that letter, its capital, or for k the Kelvin sign.
abbrev pub SpellsUnit : ℕ → ℕ → Type 0
SpellsUnit c d = (c ≡ d) ⊎ ((65 ≤ c) × (c ≤ 90) × (c + 32 ≡ d)) ⊎ ((c ≡ 8490) × (d ≡ 107))

-- A key that spells a word, whatever the case of its letters.
abbrev pub Spells : Text → Text → Type 0
Spells [] [] = Unit
Spells [] (_ ∷ _) = ⊥
Spells (_ ∷ _) [] = ⊥
Spells (c ∷ cs) (d ∷ ds) = SpellsUnit c d × Spells cs ds

-- What no event may carry.
abbrev pub secret_words : List Text
secret_words =
    codes "token"
    ∷ codes "session"
    ∷ codes "cookie"
    ∷ codes "password"
    ∷ codes "reason"
    ∷ codes "address"
    ∷ codes "coordinates"
    ∷ codes "authorization"
    ∷ []

-- A key that spells none of them.
abbrev pub IsFree : Text → Type 0
IsFree key = All (λ w. ¬ Spells key w) secret_words

-- The outcome code that says why the export of a report was refused.
abbrev pub IsOutcome : String → Text × MetaValue → Type 0
IsOutcome action e =
    (action ≡ "report.export.refused")
    × (e.0 ≡ codes "reason")
    × ((e.1 ≡ words (codes "forbidden"))
        ⊎ ((e.1 ≡ words (codes "out_of_scope")) ⊎ (e.1 ≡ words (codes "too_large"))))

unfoldable is_small : Text → Bool
is_small [] = true
is_small (d ∷ ds) = (leb 97 d && leb d 122) && is_small ds

unit_iff :
    (c d : ℕ) → (leb 97 d && leb d 122) ≡ true → ((lower_unit c == d) ≡ true) ↔ SpellsUnit c d
unfolding lower_unit
unit_iff c d small = (λ h. ground arith, λ h. ground arith)

text_iff : (k w : Text) → is_small w ≡ true → (same_text (map lower_unit k) w ≡ true) ↔ Spells k w
unfolding is_small same_text
text_iff [] [] small = (λ h. tt, λ h. refl)
text_iff [] (d ∷ ds) small = (λ h. cc, λ h. absurd h)
text_iff (c ∷ cs) [] small = (λ h. cc, λ h. absurd h)
text_iff (c ∷ cs) (d ∷ ds) small =
    let (one, one') = unit_iff c d (ground arith) in
    let (rest, rest') = text_iff cs ds (ground arith) in
    (
      λ h. (one (ground arith), rest (ground arith)),
      λ (u, t). let a = one' u in let b = rest' t in ground arith,
    )

free_iff :
    (key : Text) (ws : List Text)
    → All (λ w. is_small w ≡ true) ws
    → (any (same_text (map lower_unit key)) ws ≡ false) ↔ All (λ w. ¬ Spells key w) ws
free_iff key [] small = (λ h. tt, λ h. refl)
free_iff key (w ∷ ws) (is, small) =
    let (one, one') = text_iff key w is in
    let (rest, rest') = free_iff key ws small in
    (
      λ h. ((λ (t : Spells key w). let a = one' t in absurd (ground arith)), rest (ground arith)),
      λ (never, none_of).
          let b = rest' none_of in
          elim (Bool-cases (same_text (map lower_unit key) w)) [
            | inl same ↦ absurd (never (one same))
            | inr other ↦ ground arith
          ],
    )

words_are_small : All (λ w. is_small w ≡ true) secret_words
unfolding is_small
words_are_small = (refl, (refl, (refl, (refl, (refl, (refl, (refl, (refl, tt))))))))

code_iff :
    (v : MetaValue)
    → (is_refusal_code v ≡ true) ↔ (
        (v ≡ words (codes "forbidden"))
        ⊎ ((v ≡ words (codes "out_of_scope")) ⊎ (v ≡ words (codes "too_large"))))
code_iff (words v) = ground (
  arith,
  same_text_iff v (codes "forbidden"),
  same_text_iff v (codes "out_of_scope"),
  same_text_iff v (codes "too_large"),
)
code_iff (flag v) = (λ h. cc, λ h. ground arith)
code_iff (number v) = (λ h. cc, λ h. ground arith)
code_iff (balances v) = (λ h. cc, λ h. ground arith)

is_refusal_reason_iff :
    (action : String) (e : Text × MetaValue)
    → (is_refusal_reason action e ≡ true) ↔ IsOutcome action e
unfolding is_refusal_reason
is_refusal_reason_iff action (key, value) = ground (
  arith,
  eq_iff action "report.export.refused",
  same_text_iff key (codes "reason"),
  code_iff value,
)

-- The filter of `sanitizeAuditMetadata`.
kept_iff :
    (action : String) (e : Text × MetaValue)
    → ((is_refusal_reason action e || not (is_blocked e.0)) ≡ true)
      ↔ (IsFree e.0 ⊎ IsOutcome action e)
kept_iff action e =
    let (free, free') = free_iff e.0 secret_words words_are_small in
    let (outcome, outcome') = is_refusal_reason_iff action e in
    (
      λ h. elim (Bool-cases (is_refusal_reason action e)) [
        | inl is ↦ inr (outcome is)
        | inr other ↦ inl (free (ground arith))
      ],
      λ h. elim h [
        | inl clean ↦ let b = free' clean in ground arith
        | inr fixed ↦ let b = outcome' fixed in ground arith
      ],
    )

-- Sanitising keeps exactly the entries whose key spells none of the eight secret words, in whatever
-- case its letters are, and the outcome code that says why the export of a report was refused.
pub sanitize_iff :
    (input : Metadata) (action : String) (e : Text × MetaValue)
    → Memᴰ e (sanitize_audit_metadata input action)
      ↔ (Memᴰ e input × (IsFree e.0 ⊎ IsOutcome action e))
unfolding sanitize_audit_metadata
sanitize_iff input action e =
    let (kept, kept') = kept_iff action e in
    (
      λ m. let (n, q) = mem-filter _ e input m in (n, kept q),
      λ (m, q). mem_of_filter _ e input m (kept' q),
    )

-- Writing an event appends one row.
pub length-write_audit_event :
    (e : AuditEvent) (rows : List AuditRow) → length (write_audit_event e rows) ≡ length rows + 1
unfolding write_audit_event
length-write_audit_event e rows = omega (arith, length-append rows (audit_row e ∷ []))
