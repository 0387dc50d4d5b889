-- ===== src/Types/Checkpoint.antt =====
-- src-tauri/src/state.rs: the checkpoint of a consumer of the runtime events, with its `PartialEq`.
-- The texts of a hint and of a transition are the constructors of their types.
use dash_drop.Base.{
  ℕ, String, Bool, true, false, Option, ◌≡◌, ◌↔◌, ◌&&◌, ◌==◌, nat_eq, string_eq, option_eq,
  option_beq_iff, arith, Eq,
}

pub data RecoveryHint : Type 0 where
  up_to_date hot_window persisted_catch_up resync_required : RecoveryHint

pub data CheckpointTransition : Type 0 where
  created generation_reset heartbeat advanced rewound : CheckpointTransition

pub record RuntimeEventCheckpoint : Type 0 where
  pub consumer_id : String
  pub generation : String
  pub seq : ℕ
  pub updated_at_unix_ms : ℕ
  pub created_at_unix_ms : Option ℕ
  pub last_read_at_unix_ms : Option ℕ
  pub lease_expires_at_unix_ms : Option ℕ
  pub revision : Option ℕ
  pub last_transition : Option CheckpointTransition
  pub recovery_hint : Option RecoveryHint
  pub current_oldest_available_seq : Option ℕ
  pub current_latest_available_seq : Option ℕ
  pub current_compaction_watermark_seq : Option ℕ
  pub current_compaction_watermark_segment_id : Option ℕ

abbrev pub hint_beq : RecoveryHint → RecoveryHint → Bool
hint_beq up_to_date up_to_date = true
hint_beq hot_window hot_window = true
hint_beq persisted_catch_up persisted_catch_up = true
hint_beq resync_required resync_required = true
hint_beq _ _ = false

pub hint_beq_iff : (x y : RecoveryHint) → (hint_beq x y ≡ true) ↔ (x ≡ y)
hint_beq_iff up_to_date y = ground arith
hint_beq_iff hot_window y = ground arith
hint_beq_iff persisted_catch_up y = ground arith
hint_beq_iff resync_required y = ground arith

instance abbrev pub hint_eq : Eq RecoveryHint
hint_eq = record { eqb = hint_beq; eqb_iff = hint_beq_iff }

abbrev pub transition_beq : CheckpointTransition → CheckpointTransition → Bool
transition_beq created created = true
transition_beq generation_reset generation_reset = true
transition_beq heartbeat heartbeat = true
transition_beq advanced advanced = true
transition_beq rewound rewound = true
transition_beq _ _ = false

pub transition_beq_iff : (x y : CheckpointTransition) → (transition_beq x y ≡ true) ↔ (x ≡ y)
transition_beq_iff created y = ground arith
transition_beq_iff generation_reset y = ground arith
transition_beq_iff heartbeat y = ground arith
transition_beq_iff advanced y = ground arith
transition_beq_iff rewound y = ground arith

instance abbrev pub transition_eq : Eq CheckpointTransition
transition_eq = record { eqb = transition_beq; eqb_iff = transition_beq_iff }

unfoldable pub checkpoint_beq : RuntimeEventCheckpoint → RuntimeEventCheckpoint → Bool
checkpoint_beq x y =
    x.consumer_id == y.consumer_id
    && x.generation == y.generation
    && x.seq == y.seq
    && x.updated_at_unix_ms == y.updated_at_unix_ms
    && x.created_at_unix_ms == y.created_at_unix_ms
    && x.last_read_at_unix_ms == y.last_read_at_unix_ms
    && x.lease_expires_at_unix_ms == y.lease_expires_at_unix_ms
    && x.revision == y.revision
    && x.last_transition == y.last_transition
    && x.recovery_hint == y.recovery_hint
    && x.current_oldest_available_seq == y.current_oldest_available_seq
    && x.current_latest_available_seq == y.current_latest_available_seq
    && x.current_compaction_watermark_seq == y.current_compaction_watermark_seq
    && x.current_compaction_watermark_segment_id == y.current_compaction_watermark_segment_id

and_both : (a b : Bool) → (a && b) ≡ true → (a ≡ true) × (b ≡ true)
and_both a b h = ground arith

pub checkpoint_beq_sound : (x y : RuntimeEventCheckpoint) → checkpoint_beq x y ≡ true → x ≡ y
unfolding checkpoint_beq
checkpoint_beq_sound x y h =
    let (h13, e13) =
      and_both _
        (x.current_compaction_watermark_segment_id == y.current_compaction_watermark_segment_id)
        h in
    let (h12, e12) =
      and_both _ (x.current_compaction_watermark_seq == y.current_compaction_watermark_seq) h13 in
    let (h11, e11) =
      and_both _ (x.current_latest_available_seq == y.current_latest_available_seq) h12 in
    let (h10, e10) =
      and_both _ (x.current_oldest_available_seq == y.current_oldest_available_seq) h11 in
    let (h9, e9) = and_both _ (x.recovery_hint == y.recovery_hint) h10 in
    let (h8, e8) = and_both _ (x.last_transition == y.last_transition) h9 in
    let (h7, e7) = and_both _ (x.revision == y.revision) h8 in
    let (h6, e6) = and_both _ (x.lease_expires_at_unix_ms == y.lease_expires_at_unix_ms) h7 in
    let (h5, e5) = and_both _ (x.last_read_at_unix_ms == y.last_read_at_unix_ms) h6 in
    let (h4, e4) = and_both _ (x.created_at_unix_ms == y.created_at_unix_ms) h5 in
    let (h3, e3) = and_both _ (x.updated_at_unix_ms == y.updated_at_unix_ms) h4 in
    let (h2, e2) = and_both _ (x.seq == y.seq) h3 in
    let (h1, e1) = and_both _ (x.generation == y.generation) h2 in
    λ i. record {
      consumer_id = (string_eq.eqb_iff x.consumer_id y.consumer_id).0 h1 i;
      generation = (string_eq.eqb_iff x.generation y.generation).0 e1 i;
      seq = (nat_eq.eqb_iff x.seq y.seq).0 e2 i;
      updated_at_unix_ms = (nat_eq.eqb_iff x.updated_at_unix_ms y.updated_at_unix_ms).0 e3 i;
      created_at_unix_ms = (option_beq_iff x.created_at_unix_ms y.created_at_unix_ms).0 e4 i;
      last_read_at_unix_ms = (option_beq_iff x.last_read_at_unix_ms y.last_read_at_unix_ms).0 e5 i;
      lease_expires_at_unix_ms =
          (option_beq_iff x.lease_expires_at_unix_ms y.lease_expires_at_unix_ms).0 e6 i;
      revision = (option_beq_iff x.revision y.revision).0 e7 i;
      last_transition = (option_beq_iff x.last_transition y.last_transition).0 e8 i;
      recovery_hint = (option_beq_iff x.recovery_hint y.recovery_hint).0 e9 i;
      current_oldest_available_seq =
          (option_beq_iff x.current_oldest_available_seq y.current_oldest_available_seq).0 e10 i;
      current_latest_available_seq =
          (option_beq_iff x.current_latest_available_seq y.current_latest_available_seq).0 e11 i;
      current_compaction_watermark_seq =
          (option_beq_iff x.current_compaction_watermark_seq y.current_compaction_watermark_seq).0
            e12 i;
      current_compaction_watermark_segment_id =
          (option_beq_iff x.current_compaction_watermark_segment_id
              y.current_compaction_watermark_segment_id).0
            e13 i;
    }
