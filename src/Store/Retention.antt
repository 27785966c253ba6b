-- ===== src/Store/Retention.antt =====
-- The purge of payloads.
use relais.Base.{
  ℕ, ◌≡◌, refl, ap, ◌∙◌, true, false, List, [], ◌∷◌, some, arith, ◌==◌, ==_iff, Bool-cases, inl,
  inr,
}
use relais.Crypto.Keyring.{Bytes}
use relais.Store.Rows.{
  Status, queued, sending, sent, failed, rejected, Message, find_message, find_payload, is_purged,
  purge, is_claimable, is_sent, is_failed,
}
use relais.Store.Session.{World, query-quiet, query-lost, next_fault}
use relais.Store.Messages.{purge_payloads, purge_query}
use relais.Store.Status.{row}

purge-find_payload :
    (sent_ttl failed_ttl now id : ℕ) (ms : List Message) (ps : List (ℕ × Bytes))
    → is_purged sent_ttl failed_ttl now (find_message id ms) ≡ false
    → find_payload id (purge sent_ttl failed_ttl now ms ps) ≡ find_payload id ps
unfolding purge find_payload
purge-find_payload sent_ttl failed_ttl now id ms [] kept = refl
purge-find_payload sent_ttl failed_ttl now id ms ((j, raw) ∷ ps) kept =
    elim (Bool-cases (is_purged sent_ttl failed_ttl now (find_message j ms))) [
      | inl gone ↦ elim (Bool-cases (j == id)) [
        | inl same ↦
            let clash : is_purged sent_ttl failed_ttl now (find_message j ms) ≡ false =
              rw ((==_iff j id).0 same) kept in
            ground (arith, clash, gone)
        | inr other ↦ rw (gone, other) (purge-find_payload sent_ttl failed_ttl now id ms ps kept)
      ]
      | inr stays ↦ rw stays (elim (Bool-cases (j == id)) [
        | inl same ↦ rw same refl
        | inr other ↦ rw other (purge-find_payload sent_ttl failed_ttl now id ms ps kept)
      ])
    ]

claimable-kept :
    (sent_ttl failed_ttl now : ℕ) (m : Message)
    → is_claimable m.status ≡ true
    → is_purged sent_ttl failed_ttl now (some m) ≡ false
unfolding is_purged
claimable-kept sent_ttl failed_ttl now m claimable =
    let spared = go m.status claimable in ground (arith, spared.0, spared.1)
  where
    go : (s : Status) → is_claimable s ≡ true → (is_sent s ≡ false) × (is_failed s ≡ false)
    go queued h = (refl, refl)
    go sending h = (refl, refl)
    go sent h = cc
    go failed h = cc
    go rejected h = cc

-- A purge keeps the payload of every message that is queued or sending.
pub purge_payloads-claimable :
    (sent_ttl failed_ttl id : ℕ) (m : Message) (w : World)
    → row id w ≡ some m
    → is_claimable m.status ≡ true
    → find_payload id (purge_payloads sent_ttl failed_ttl w).1.db.payloads
      ≡ find_payload id w.db.payloads
unfolding purge_payloads
purge_payloads-claimable sent_ttl failed_ttl id m w found claimable =
    elim (Bool-cases (next_fault w.faults)) [
      | inl lost ↦ rw (query-lost (purge_query sent_ttl failed_ttl) w lost) refl
      | inr quiet ↦ rw (query-quiet (purge_query sent_ttl failed_ttl) w quiet) (
          purge-find_payload sent_ttl failed_ttl w.now id w.db.messages w.db.payloads (
            ap (is_purged sent_ttl failed_ttl w.now) found
            ∙ claimable-kept sent_ttl failed_ttl w.now m claimable))
    ]
