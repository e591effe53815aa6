-- ===== src/Session/Patches.antt =====
-- The snapshot of a context (aeon-vm/src/session.rs): it stays readable, and a patch extends it.
use aeon_flow.Base.{
  ℕ, ◌≡◌, ap, List, [], ◌∷◌, ◌++◌, Bytes, ok, ◌>>=◌, bind-eq-ok, map_err, map_err-eq-ok, length,
}
use aeon_flow.EventLog.{AeonEvent, append_at, patch_applied}
use aeon_flow.Snapshot.{Snapshot}
use aeon_flow.Editor.{PatchSet, apply}
use aeon_flow.Session.{
  SharedContext, AttributedPatch, SessionId, Lamport, validation_failed, play, play_all,
  current_snapshot, next_clock, apply_patch,
}

module _ (blake3 : Bytes → Bytes) (serialize : AeonEvent → ℕ → Bytes → Bytes) where
  play_all-append :
      (id : Bytes) (ps qs : List AttributedPatch) (s : Snapshot) {t : Snapshot}
      → play_all blake3 serialize id ps s ≡ ok t
      → play_all blake3 serialize id (ps ++ qs) s ≡ play_all blake3 serialize id qs t
  unfolding play_all
  play_all-append id [] qs s e = ap (λ r. r >>= play_all blake3 serialize id qs) e
  play_all-append id (p ∷ ps) qs s e =
      let (u, a, b) =
        bind-eq-ok (play blake3 serialize id p s) (play_all blake3 serialize id ps) e in
      rw a (play_all-append id ps qs u b)

  -- A patch that a context accepts applies to its current snapshot. The context then still has a
  -- current snapshot: the patched one, with the event of the patch logged behind its log.
  pub apply_patch-current :
      (now : ℕ) (author : SessionId) (message : Bytes) (patchset : PatchSet) (ctx : SharedContext)
      {clock : Lamport} {ctx' : SharedContext}
      → apply_patch blake3 serialize now author message patchset ctx ≡ ok (clock, ctx')
      → (current patched : Snapshot) × (current_snapshot blake3 serialize ctx ≡ ok current)
        × (apply patchset current ≡ ok patched)
        × (current_snapshot blake3 serialize ctx'
            ≡ ok (record patched {
              event_log =
                  (append_at blake3 serialize
                    (patch_applied ctx.id author message (length patchset.patches))
                    now
                    patched.event_log).1;
            }))
  unfolding apply_patch current_snapshot play_all play
  apply_patch-current now author message patchset ctx {clock} {ctx'} e =
      let (current, a, e₁) = bind-eq-ok (current_snapshot blake3 serialize ctx) _ e in
      let (patched, b, e₂) = bind-eq-ok (map_err validation_failed (apply patchset current)) _ e₁ in
      let b' = map_err-eq-ok validation_failed (apply patchset current) b in
      let entry : AttributedPatch = record {
        author = author;
        clock = next_clock ctx;
        wall_ms = now;
        message = message;
        patchset = patchset;
      } in
      let result : record ctx { patches = ctx.patches ++ entry ∷ [] } ≡ ctx' = cc e₂ in
      (
        current,
        patched,
        a,
        b',
        rw (← result, play_all-append ctx.id ctx.patches (entry ∷ []) ctx.base_snapshot a, b'),
      )
