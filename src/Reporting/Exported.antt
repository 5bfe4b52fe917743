-- ===== src/Reporting/Exported.antt =====
-- modules/reporting/export-service.ts: what holds of every export that succeeds.
use Prim.Native.String.{String}
use scope_is_team_management.Base.{
  >>=-eq-ok, ensure_passed, found_passed, ok-injective, subst, ◌<◌, refl, ℕ, Bool, true, false, ◌≡◌,
  ◌≢◌, ◌≤◌, ◌||◌, not, arith, ap, sym, ◌∙◌, inl, inr, Option, some, Option-cases, Bool-cases, List,
  length, Text, ok, err, Result, ltb, if◌then◌else◌,
}
use scope_is_team_management.Shared.{Actor}
use scope_is_team_management.Audit.{AuditEvent, AuditRow}
use scope_is_team_management.Authorization.Resolved.{CurrentActor, ResolvedScope, resolve_scope}
use scope_is_team_management.Dates.{Date}
use scope_is_team_management.Reporting.Contracts.{ReportDefinition}
use scope_is_team_management.Reporting.Definitions.{
  report_definition, can_view_report, can_export_report,
}
use scope_is_team_management.Reporting.Windows.{ReportError, not_found}
use scope_is_team_management.Reporting.Requests.{ReportQuery, WindowRequest, resolve_request}
use scope_is_team_management.Reporting.Filters.{ReportStore}
use scope_is_team_management.Reporting.Cells.{Built, Row}
use scope_is_team_management.Reporting.Builders.{ResolvedRequest}
use scope_is_team_management.Reporting.Unchanged.{resolve_request-same}
use scope_is_team_management.Reporting.Complete.{limited, build-IsPaged}
use scope_is_team_management.Reporting.Service.{
  ExportPayload, export_payload, max_export_rows, current_actor, build, authorize,
}
use scope_is_team_management.Reporting.Exports.{
  Outcome, ExportError, RefusalReason, too_large_refusal, out_of_scope_refusal, is_csv, is_empty,
  refuse, is_window_error, is_404, finish, settle, generate, export_event,
}

ok-inj :
    (p q : ExportPayload) → (let r : Result ExportError ExportPayload = ok p in r) ≡ ok q → p ≡ q
ok-inj p q h = cc

some-inj : {A : Type 0} (a b : A) → some a ≡ some b → a ≡ b
some-inj a b h = cc

-- An outcome that is an error is no export.
err≢ok :
    (e : ExportError) (p : ExportPayload) (a b : List AuditRow)
    → (let o : Outcome = (err e, a) in o) ≢ (ok p, b)
err≢ok e p a b h = cc

-- The request that an export makes of a builder, with a limit on its rows.
abbrev pub export_request : ℕ → ResolvedScope → Date → WindowRequest → ℕ → ResolvedRequest
export_request actor_id scope today w limit = record {
  actor_id = actor_id;
  window = w.window;
  page = w.page;
  offset = 0;
  limit = limit;
  conflict = w.conflict;
  query = w.query;
  scope = scope;
  today = today;
}

module _ (name_before : String → String → Bool) (history : ResolvedRequest → Built)
    (write : AuditEvent → List AuditRow → Option (List AuditRow)) where
  finished :
      (actor : Actor) (d : ReportDefinition) (payload p : ExportPayload)
      (audits audits' : List AuditRow)
      → finish name_before history write actor d payload audits ≡ (ok p, audits')
      → (p ≡ payload) × (write (export_event actor d payload) audits ≡ some audits')
  unfolding finish
  finished actor d payload p audits audits' h =
      elim (Option-cases (write (export_event actor d payload) audits)) [
        | inl failed ↦ absurd (err≢ok _ p _ _ (rw (failed, finish) at h))
        | inr (written, e) ↦
            let h' = rw (e, finish) at h in
            (sym (ok-inj payload p (ap (λ x. x.0) h')), e ∙ ap some (ap (λ x. x.1) h'))
      ]

  refused_never :
      (actor : Actor) (key : Text) (reason : RefusalReason) (e : ReportError) (p : ExportPayload)
      (audits audits' : List AuditRow)
      → refuse name_before history write actor key reason e audits ≢ (ok p, audits')
  unfolding refuse
  refused_never actor key reason e p audits audits' h = err≢ok _ p _ _ h

  either : (P : Outcome → Type 0) (b : Bool) (x y : Outcome) → P x → P y → P (if b then x else y)
  either P true x y f g = f
  either P false x y f g = g

  -- A settled payload is within the cap, and its event was written.
  settled :
      (actor : Actor) (key : Text) (d : ReportDefinition)
      (r : Result ReportError (ExportPayload × ReportStore)) (p : ExportPayload)
      (audits audits' : List AuditRow)
      → settle name_before history write actor key d r audits ≡ (ok p, audits')
      → (s' : ReportStore) × (r ≡ ok (p, s'))
        × (length p.rows ≤ max_export_rows)
        × (write (export_event actor d p) audits ≡ some audits')
  unfolding settle
  settled actor key d (err e) p audits audits' h = absurd (
      either (λ o. o ≢ (ok p, audits')) (is_window_error e) _ _
        (refused_never actor key too_large_refusal e p audits audits')
        (either (λ o. o ≢ (ok p, audits')) (is_404 e) _ _
          (refused_never actor key out_of_scope_refusal not_found p audits audits')
          (err≢ok _ p _ _))
        h)
  settled actor key d (ok (payload, s')) p audits audits' h =
      elim (Bool-cases (ltb max_export_rows (length payload.rows))) [
        | inl over ↦ absurd (refused_never actor key _ _ p audits audits' (rw (over, settle) at h))
        | inr fits ↦
            let (same, written) =
              finished actor d payload p audits audits' (rw (fits, settle) at h) in
            (s', ap (λ x. ok (x, s')) (sym same), rw same (ground (arith, fits)), rw same written)
      ]

  authorized :
      (actor_id : ℕ) (key : Text) (s s' : ReportStore)
      (access : (CurrentActor × ResolvedScope) × ReportDefinition) (current : CurrentActor)
      (d : ReportDefinition)
      → authorize name_before history actor_id key s ≡ ok (access, s')
      → current_actor actor_id s ≡ some current
      → report_definition key ≡ some d
      → (access ≡ ((current, resolve_scope current), d)) × (s' ≡ s)
  unfolding authorize
  authorized actor_id key s s' access current d h c k =
      let (current', c', h₁) = found_passed (current_actor actor_id s) not_found _ s h in
      let (d', k', h₂) = found_passed (report_definition key) not_found _ s h₁ in
      let (allowed, h₃) = ensure_passed (can_view_report current'.role d'.key) not_found _ s h₂ in
      let same_c : current' ≡ current = some-inj current' current (sym c' ∙ c) in
      let same_d : d' ≡ d = some-inj d' d (sym k' ∙ k) in
      let e = ok-injective _ refl h₃ in
      (
        sym (ap (λ (x : ((CurrentActor × ResolvedScope) × ReportDefinition) × ReportStore). x.0) e)
            ∙ ap (λ x. ((x, resolve_scope x), d')) same_c
            ∙ ap (λ x. ((current, resolve_scope current), x)) same_d,
        sym (ap (λ (x : ((CurrentActor × ResolvedScope) × ReportDefinition) × ReportStore). x.1) e),
      )

  -- The payload of an export is what the report's builder makes of the accepted request.
  payload_built :
      (actor_id : ℕ) (today : Date) (key : Text) (query : ReportQuery) (s s' : ReportStore)
      (p : ExportPayload) (current : CurrentActor) (d : ReportDefinition)
      → export_payload name_before history actor_id today key query s ≡ ok (p, s')
      → current_actor actor_id s ≡ some current
      → report_definition key ≡ some d
      → (w : WindowRequest) × (resolve_request today d.key query s ≡ ok (w, s))
        × (p.rows
            ≡ (build name_before history d.key
                (export_request actor_id (resolve_scope current) today w 5001)
                s).rows)
  unfolding export_payload authorize
  payload_built actor_id today key query s s' p current d h c k =
      let (access, s₁, allowed, h₁) =
        >>=-eq-ok (authorize name_before history actor_id key) _ s h in
      let (same_access, same₁) = authorized actor_id key s s₁ access current d allowed c k in
      let (w, s₂, resolved, h₂) = >>=-eq-ok (resolve_request today (access.1).key query) _ s₁ h₁ in
      let same₂ = resolve_request-same today (access.1).key query s₁ s₂ w resolved in
      let back : s₂ ≡ s = same₂ ∙ same₁ in
      let e = ap (λ (x : ExportPayload × ReportStore). (x.0).rows) (ok-injective _ refl h₂) in
      (
        w,
        subst (λ k. resolve_request today d.key query s ≡ ok (w, k)) back
            (subst (λ k. resolve_request today d.key query k ≡ ok (w, s₂)) same₁
              (subst
                (λ (a : (CurrentActor × ResolvedScope) × ReportDefinition).
                  resolve_request today (a.1).key query s₁ ≡ ok (w, s₂))
                same_access resolved)),
        sym e
            ∙ ap
                (λ (a : (CurrentActor × ResolvedScope) × ReportDefinition).
                  (build name_before history (a.1).key
                    (export_request actor_id (a.0).1 today w 5001) s₂).rows)
                same_access
            ∙ ap
                (λ (k : ReportStore).
                  (build name_before history d.key
                    (export_request actor_id (resolve_scope current) today w 5001) k).rows)
                back,
      )

  -- Whenever an export succeeds, for whatever actor, report key, format and query: the acting user
  -- is an active user of the database, the key names a report which that user's current role may
  -- export, the query is accepted, and the audit event that records the export was written. The file
  -- has at most 5000 rows, and it is not cut off: its rows are those that the report's builder, in
  -- the scope of the user's current role and grants, makes of the accepted query with any limit over
  -- 5000. The builder of the audit history is given; it has to return the same rows for a larger
  -- limit when they are fewer than the limit.
  pub generate_is_authorized :
      (actor : Actor) (today : Date) (key : Text) (format : Option Text) (query : ReportQuery)
      (s : ReportStore) (audits audits' : List AuditRow) (p : ExportPayload)
      → ((r : ResolvedRequest) (n : ℕ)
          → length (history r).rows < r.limit
          → r.limit ≤ n
          → (history (limited n r)).rows ≡ (history r).rows)
      → (n : ℕ) → 5000 < n
      → generate name_before history write actor today key format query s audits ≡ (ok p, audits')
      → (current : CurrentActor) × (d : ReportDefinition) × (w : WindowRequest) × (current_actor
            actor.id s
          ≡ some current)
        × (report_definition key ≡ some d)
        × (can_export_report current.role d.key ≡ true)
        × (resolve_request today d.key query s ≡ ok (w, s))
        × (p.rows
            ≡ (build name_before history d.key
                (export_request actor.id (resolve_scope current) today w n)
                s).rows)
        × (length p.rows ≤ 5000)
        × (write (export_event actor d p) audits ≡ some audits')
  unfolding generate
  generate_is_authorized actor today key format query s audits audits' p paged n over h =
      elim (Bool-cases (not (is_csv format))) [
        | inl other ↦ absurd (err≢ok _ p _ _ (rw (other, generate) at h))
        | inr csv ↦ elim (Option-cases (current_actor actor.id s)) [
          | inl gone ↦ absurd (err≢ok _ p _ _ (rw (csv, gone, generate) at h))
          | inr (current, c) ↦ elim (Option-cases (report_definition key)) [
            | inl unknown ↦
                absurd (
                  refused_never actor key _ _ p audits audits'
                    (rw (csv, c, unknown, generate) at h))
            | inr (d, k) ↦
                elim (Bool-cases
                  (not (can_export_report current.role d.key) || is_empty d.export_roles)) [
                    | inl barred ↦ absurd (
                        refused_never actor key _ _ p audits audits'
                          (rw (csv, c, k, barred, generate) at h))
                    | inr allowed ↦
                        let (s', payload, small, written) =
                          settled actor key d
                            (export_payload name_before history actor.id today key query s) p audits
                            audits' (rw (csv, c, k, allowed, generate) at h) in
                        let (w, resolved, rows) =
                          payload_built actor.id today key query s s' p current d payload c k in
                        let request =
                          export_request actor.id (resolve_scope current) today w 5001 in
                        let few = subst (λ (k : List Row). length k ≤ 5000) rows small in
                        let all =
                          build-IsPaged name_before history paged d.key s request n (ground arith)
                            (ground arith) in
                        (
                          current,
                          d,
                          w,
                          c,
                          k,
                          ground (arith, allowed),
                          resolved,
                          rows ∙ sym all,
                          small,
                          written,
                        )
                  ]
          ]
        ]
      ]
