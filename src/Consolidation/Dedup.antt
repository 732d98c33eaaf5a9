-- ===== src/Consolidation/Dedup.antt =====
-- Exact deduplication: `record_event` and `is_duplicate`.
use notipus.Base.{
  ℕ, ◌+◌, String, ◌≡◌, true, some, is_some, arith, ltb, eq_iff, push-injective, truthy, non_empty,
  str_eq, concat, no_colon, colon-injective, ◌&&◌, if◌then◌else◌,
}
use notipus.Base.Call.{ok}
use notipus.Cache.{Cache, get-up, set-up}
use notipus.Consolidation.{Entry, seen, dedup_key, record_event, is_duplicate}

dedup_key-injective :
    (workspace_id other_workspace a b : String)
    → no_colon workspace_id ≡ true
    → no_colon other_workspace ≡ true
    → dedup_key workspace_id a ≡ dedup_key other_workspace b
    → (workspace_id ≡ other_workspace) × (a ≡ b)
unfolding dedup_key concat
dedup_key-injective workspace_id other_workspace a b plain plain' same =
    colon-injective workspace_id other_workspace a b plain plain'
      (push-injective "event_dedup:" _ _ same)

-- The key tells workspaces, and the events of each, apart.
dedup_key-eq :
    (workspace_id other_workspace a b : String)
    → no_colon workspace_id ≡ true
    → no_colon other_workspace ≡ true
    → str_eq (dedup_key workspace_id a) (dedup_key other_workspace b)
      ≡ (str_eq workspace_id other_workspace && str_eq a b)
dedup_key-eq workspace_id other_workspace a b plain plain' = ground (
  arith,
  eq_iff a b,
  eq_iff workspace_id other_workspace,
  eq_iff (dedup_key workspace_id a) (dedup_key other_workspace b),
  dedup_key-injective workspace_id other_workspace a b plain plain',
  joined,
)
  where
    joined :
        workspace_id ≡ other_workspace
        → a ≡ b
        → dedup_key workspace_id a ≡ dedup_key other_workspace b
    joined e f = cc (e, f)

module _ (c : Cache Entry) (workspace_id : String) (now : ℕ) (s s' : c.State) where
  pub recorded :
      (id : String)
      → truthy id ≡ true
      → c.up s now ≡ true
      → record_event c now workspace_id (some id) s
        ≡ (ok tt, c.store s now (dedup_key workspace_id id) seen 1800)
  unfolding record_event non_empty
  recorded id real u = rw (real, set-up c now (dedup_key workspace_id id) seen 1800 u)

  module _ (other_workspace : String) (plain : no_colon workspace_id ≡ true)
      (plain' : no_colon other_workspace ≡ true) where
    recorded-peek :
        (t : ℕ) (id other : String)
        → truthy id ≡ true
        → c.up s now ≡ true
        → (record_event c now workspace_id (some id) s).1 ≡ s'
        → is_some (c.peek s' t (dedup_key other_workspace other)) ≡ (
            if str_eq workspace_id other_workspace && str_eq id other
            then ltb t (now + 1800)
            else is_some (c.peek s t (dedup_key other_workspace other)))
    recorded-peek t id other real u step =
        rw
          (
            ← step,
            recorded id real u,
            c.peek-store s now t 1800 (dedup_key workspace_id id) (dedup_key other_workspace other)
                seen,
            dedup_key-eq workspace_id other_workspace id other plain plain',
          )
          (ground arith)

    -- After an identifier that is not empty is recorded while the cache is up, and as long as the
    -- cache answers, the same identifier of the same workspace is a duplicate for exactly 1800
    -- seconds. Any other identifier that is not empty, and the same one in another workspace, is a
    -- duplicate exactly if the cache held it before. The names of the workspaces, which are UUIDs,
    -- have no colon.
    pub is_duplicate-record_event :
        (t : ℕ) (id other : String)
        → truthy id ≡ true
        → truthy other ≡ true
        → c.up s now ≡ true
        → (record_event c now workspace_id (some id) s).1 ≡ s'
        → c.up s' t ≡ true
        → is_duplicate c t other_workspace (some other) s' ≡ (
          ok (
              if str_eq workspace_id other_workspace && str_eq id other
              then ltb t (now + 1800)
              else is_some (c.peek s t (dedup_key other_workspace other))),
          s',
        )
    unfolding is_duplicate non_empty
    is_duplicate-record_event t id other real real' u step u' = rw (
      real',
      get-up c t (dedup_key other_workspace other) u',
      recorded-peek t id other real u step,
    )
