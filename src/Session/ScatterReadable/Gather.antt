-- ===== src/Session/ScatterReadable/Gather.antt =====
-- The rows of a scattered query: what one shard adds, and the end of the query.
use sharegres.Base.{
  ℕ, zero, suc, ◌<◌, ◌≡◌, ◌∙◌, refl, ap, arith, Bool, true, false, not, List, [], ◌∷◌, ◌++◌, some,
  length, append_assoc, append-nil, if◌then◌else◌,
}
use sharegres.Base.Bytes.{Bytes}
use sharegres.Libpq.{Libpq, PgResult, ExecStatus}
use sharegres.Session.BackendReadable.Complete.{Yields}
use sharegres.Session.Forward.Rows.{bytes-forward_result, header_text, rows_text}
use sharegres.Session.Results.Frames.{forward_result-OnlyQueued}
use sharegres.Session.ScatterReadable.{gather_result, gather_results}
use sharegres.Session.{ClientSession, State}

-- Does a result have rows, which are all that is forwarded?
abbrev pub has_rows : ExecStatus → Bool
has_rows ExecStatus.tuples_ok = true
has_rows ExecStatus.single_tuple = true
has_rows _ = false

abbrev pub part_text : Bool → PgResult → Bytes
part_text header_sent res =
    if has_rows res.status
    then header_text (not header_sent) res.fields ++ rows_text (length res.fields) res.rows
    else []

abbrev pub header_after : Bool → PgResult → Bool
header_after header_sent res = if has_rows res.status then true else header_sent

-- The frames of the rows of all results, and whether a header was sent then.
abbrev pub parts_text : Bool → List PgResult → Bytes
parts_text header_sent [] = []
parts_text header_sent (res ∷ rest) =
    part_text header_sent res ++ parts_text (header_after header_sent res) rest

abbrev pub header_after_all : Bool → List PgResult → Bool
header_after_all header_sent [] = header_sent
header_after_all header_sent (res ∷ rest) = header_after_all (header_after header_sent res) rest

-- What a shard's results change: the send buffer, and the flag for the header.
abbrev pub OnlyGathered : ClientSession → ClientSession → Type 0
OnlyGathered s s' =
    s' ≡ record s { send_buf = s'.send_buf; scatter_header_sent = s'.scatter_header_sent }

OnlyGathered-trans :
    (s s₁ s₂ : ClientSession) → OnlyGathered s s₁ → OnlyGathered s₁ s₂ → OnlyGathered s s₂
OnlyGathered-trans s s₁ s₂ e₁ e₂ =
    e₂
    ∙ ap {A = ClientSession} {B = ClientSession}
        (λ t. record t { send_buf = s₂.send_buf; scatter_header_sent = s₂.scatter_header_sent }) e₁

abbrev pub Part : Bool → Bytes → ClientSession → ClientSession → Type 0
Part header text s s' =
    OnlyGathered s s'
    × (s'.scatter_header_sent ≡ header)
    × (s'.send_buf.bytes ≡ s.send_buf.bytes ++ text)

gather_result-Part :
    (status : ExecStatus) (res : PgResult) (s : ClientSession)
    → Part
        (if has_rows status then true else s.scatter_header_sent)
        (if has_rows status
          then header_text (not s.scatter_header_sent) res.fields
            ++ rows_text (length res.fields) res.rows
          else [])
        s
        (gather_result status res s)
unfolding gather_result
gather_result-Part ExecStatus.tuples_ok res s = (
  ap {A = ClientSession} {B = ClientSession} (λ t. record t { scatter_header_sent = true })
      (forward_result-OnlyQueued s res (not s.scatter_header_sent)),
  refl,
  (bytes-forward_result s res (not s.scatter_header_sent)).1,
)
gather_result-Part ExecStatus.single_tuple res s = (
  ap {A = ClientSession} {B = ClientSession} (λ t. record t { scatter_header_sent = true })
      (forward_result-OnlyQueued s res (not s.scatter_header_sent)),
  refl,
  (bytes-forward_result s res (not s.scatter_header_sent)).1,
)
gather_result-Part ExecStatus.command_ok res s = (refl, refl, rw append-nil)
gather_result-Part ExecStatus.copy_in res s = (refl, refl, rw append-nil)
gather_result-Part ExecStatus.copy_out res s = (refl, refl, rw append-nil)
gather_result-Part ExecStatus.fatal_error res s = (refl, refl, rw append-nil)
gather_result-Part ExecStatus.other res s = (refl, refl, rw append-nil)

module _ (pq : Libpq) where
  pub gather_results_all :
      (fuel conn : ℕ) (results : List PgResult) (st : State pq) (e' : pq.Env)
      → length results < fuel
      → Yields pq st.env conn results e'
      → (s' : ClientSession) × (gather_results pq fuel conn st
          ≡ some (record st { session = s'; env = e' }))
        × Part
            (header_after_all st.session.scatter_header_sent results)
            (parts_text st.session.scatter_header_sent results)
            st.session
            s'
  unfolding gather_results
  gather_results_all zero conn results st e' h yields = ground arith
  gather_results_all (suc fuel) conn [] st e' h yields =
      (st.session, rw yields refl, (refl, refl, rw append-nil))
  gather_results_all (suc fuel) conn (res ∷ rest) st e' h (e₁, got, yields) =
      let s = st.session in
      let s₁ = gather_result res.status res s in
      let (only, header, queued) = gather_result-Part res.status res s in
      let h₁ = header_after s.scatter_header_sent res in
      let st₁ : State pq = record st { session = s₁; env = e₁ } in
      let (s', read, (only', header', queued')) =
        gather_results_all fuel conn rest st₁ e' (omega arith) yields in
      (
        s',
        rw got read,
        (
          OnlyGathered-trans s s₁ s' only only',
          header' ∙ ap (λ x. header_after_all x rest) header,
          queued'
              ∙ rw (queued, header)
                  (append_assoc s.send_buf.bytes (part_text s.scatter_header_sent res)
                    (parts_text h₁ rest)),
        ),
      )
