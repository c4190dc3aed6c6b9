-- ===== src/Sound/Ending.antt =====
-- The end of a keyed tone (App/sound/Sound.cpp): the sink outlasts short gaps, and no more than those.
use cwkeyer.Base.{
  ◌∙◌, sym, ◌>>=◌, ℕ, zero, suc, ◌+◌, ◌-◌, ◌*◌, ◌≤◌, ◌<◌, ◌≡◌, refl, true, false, ◌++◌, Option,
  none, some, arith, ◌⊎◌, inl, inr, if◌then◌else◌,
}
use cwkeyer.Sound.{
  Audio, AudioSink, PushTimer, Sound, on_start_cw_requested, start_cw, start_cw_with,
}
use cwkeyer.Sound.Generator.{CwGenerator, start_stream, stop_stream, generate_chunk}
use cwkeyer.Sound.Stopping.{
  IsFading, generate_chunk-IsFading, generate_chunk-stopped, stop_stream-IsFading,
}
use cwkeyer.Sound.Events.{
  tick, timeout, handle_timeout, write_chunk, count_idle, halt_sink, is_own, on_stop_cw_requested,
}

unfoldable pub run_ticks : {D : Type 0} → ℕ → Sound D → Option (Sound D)
run_ticks zero s = some s
run_ticks (suc n) s = elim (tick s) [ none ↦ none | some s' ↦ run_ticks n s' ]

-- The timer t pushes what g generates to the sink k.
pub record IsPushing {D : Type 0} (k : AudioSink) (t : PushTimer) (g : CwGenerator) (s : Sound D)
    : Type 0 where
  pub sink : s.sink ≡ some k
  pub device : s.sink_device ≡ some k.id
  pub timer : s.push_timer ≡ some t
  pub generator : s.cw_generator ≡ some g

-- Nothing is pushed any more, and the sink is stopped.
abbrev pub IsSilenced : {D : Type 0} → AudioSink → Option (Sound D) → Type 0
IsSilenced k none = ⊥
IsSilenced k (some s) =
    (s.push_timer ≡ none) × (s.sink_device ≡ none) × (s.sink ≡ some (record k { running = false }))

abbrev Begins : Option CwGenerator → Type 0
Begins none = ⊥
Begins (some g) =
    (g.sample_index ≡ 0) × (g.stopping ≡ false) × (g.stopped ≡ false) × (g.stop_sample ≡ 0)

-- The sink k is still there and written to, nothing was started, and the tone begins anew.
abbrev pub IsResumed : {D : Type 0} → AudioSink → ℕ → Option (Sound D) → Type 0
IsResumed k starts none = ⊥
IsResumed k starts (some s) =
    (s.sink ≡ some k) × (s.sink_device ≡ some k.id) × (s.starts ≡ starts) × Begins s.cw_generator

-- What a tick leaves of a timer.
abbrev counted : PushTimer → CwGenerator → PushTimer
counted t g = record t { idle_ticks = if g.stopped then suc t.idle_ticks else 0 }

module _ {D : Type 0} where
  -- What it leaves of the sound.
  abbrev ticked : PushTimer → CwGenerator → Sound D → Sound D
  ticked t g s =
      let (chunk, g') = generate_chunk t.num_samples g in
      count_idle t g' (record s { cw_generator = some g'; written = s.written ++ chunk })

  tick-ticked :
      (k : AudioSink) (t : PushTimer) (g : CwGenerator) (s : Sound D)
      → IsPushing k t g s
      → tick s ≡ some (ticked t g s)
  unfolding tick timeout handle_timeout write_chunk is_own
  tick-ticked k t g s p = ground arith

  ticked-IsPushing :
      (k : AudioSink) (t : PushTimer) (g g' : CwGenerator) (s : Sound D)
      → IsPushing k t g s
      → g' ≡ (generate_chunk t.num_samples g).1
      → IsSilenced k (some (ticked t g s)) × (99 ≤ t.idle_ticks) × (g'.stopped ≡ true)
        ⊎ IsPushing k (counted t g') g' (ticked t g s) × ((counted t g').idle_ticks < 100)
  unfolding count_idle halt_sink
  ticked-IsPushing k t g g' s p e = ground arith

  run_ticks-suc :
      (n : ℕ) (k : AudioSink) (t : PushTimer) (g : CwGenerator) (s : Sound D)
      → IsPushing k t g s
      → run_ticks (suc n) s ≡ run_ticks n (ticked t g s)
  unfolding run_ticks
  run_ticks-suc n k t g s p = let stepped = tick-ticked k t g s p in ground arith

  run_ticks-IsSilenced :
      (n : ℕ) (k : AudioSink) (s : Sound D) → IsSilenced k (some s) → IsSilenced k (run_ticks n s)
  unfolding run_ticks tick timeout
  run_ticks-IsSilenced zero k s q = q
  run_ticks-IsSilenced (suc n) k s q = let rest = run_ticks-IsSilenced n k s q in ground arith

  -- While silence is pushed.
  silence-IsSilenced :
      (n : ℕ) (k : AudioSink) (t : PushTimer) (g : CwGenerator) (s : Sound D)
      → IsPushing k t g s
      → IsFading 0 g
      → 0 < t.num_samples
      → t.idle_ticks < 100
      → 100 ≤ t.idle_ticks + n
      → IsSilenced k (run_ticks n s)
  unfolding run_ticks
  silence-IsSilenced zero k t g s p f num i h = absurd (omega arith)
  silence-IsSilenced (suc n) k t g s p f num i h =
      let g' = (generate_chunk t.num_samples g).1 in
      let ended = generate_chunk-stopped t.num_samples g f num in
      let faded = generate_chunk-IsFading t.num_samples 0 g f in
      rw (run_ticks-suc n k t g s p) (elim (ticked-IsPushing k t g g' s p refl) [
        | inl q ↦ run_ticks-IsSilenced n k (ticked t g s) q.0
        | inr q ↦
            silence-IsSilenced n k (counted t g') g' (ticked t g s) q.0 (ground arith) num q.1
              (ground arith)
      ])

  -- While the release is pushed.
  release-IsSilenced :
      (m : ℕ) (k : AudioSink) (t : PushTimer) (g : CwGenerator) (s : Sound D) (left : ℕ)
      → IsPushing k t g s
      → IsFading left g
      → 0 < t.num_samples
      → t.idle_ticks < 100
      → left ≤ m * t.num_samples
      → IsSilenced k (run_ticks (m + 100) s)
  unfolding run_ticks
  release-IsSilenced zero k t g s left p f num i h =
      silence-IsSilenced 100 k t g s p (ground arith) num i (omega arith)
  release-IsSilenced (suc m) k t g s left p f num i h =
      let g' = (generate_chunk t.num_samples g).1 in
      let faded = generate_chunk-IsFading t.num_samples left g f in
      let counts : suc m + 100 ≡ suc (m + 100) = omega arith in
      rw counts (
        rw (run_ticks-suc (m + 100) k t g s p) (elim (ticked-IsPushing k t g g' s p refl) [
          | inl q ↦ run_ticks-IsSilenced (m + 100) k (ticked t g s) q.0
          | inr q ↦
              release-IsSilenced m k (counted t g') g' (ticked t g s) (left - t.num_samples) q.0
                faded num q.1 (ground arith)
        ]))

  -- While a keyed tone is pushed to a sink: after the key goes up, the ticks of the push timer that
  -- push the release, and a hundred more, stop the timer and the sink.
  pub key_up_stops_sink :
      (m : ℕ) (k : AudioSink) (t : PushTimer) (g : CwGenerator) (s : Sound D)
      → IsPushing k t g s
      → g.stopping ≡ false
      → 0 < t.num_samples
      → t.idle_ticks < 100
      → g.release_samples ≤ m * t.num_samples
      → IsSilenced k (run_ticks (m + 100) (on_stop_cw_requested s))
  unfolding on_stop_cw_requested stop_stream
  key_up_stops_sink m k t g s p going num i h =
      release-IsSilenced m k t (stop_stream g) (on_stop_cw_requested s) g.release_samples
        (ground arith) (stop_stream-IsFading g going) num i h

  ticked-same :
      (t : PushTimer) (g : CwGenerator) (s : Sound D)
      → ((ticked t g s).enabled ≡ s.enabled) × ((ticked t g s).starts ≡ s.starts)
  unfolding count_idle
  ticked-same t g s = ground arith

  resumes_now :
      (audio : Audio D) (k : AudioSink) (t : PushTimer) (g : CwGenerator) (s : Sound D)
      → IsPushing k t g s
      → s.enabled ≡ true
      → IsResumed k s.starts (on_start_cw_requested audio s)
  unfolding on_start_cw_requested start_cw_with start_cw start_stream
  resumes_now audio k t g s p on = ground arith

  resumes_later :
      (audio : Audio D) (n : ℕ) (k : AudioSink) (t : PushTimer) (g : CwGenerator) (s : Sound D)
      (starts : ℕ)
      → IsPushing k t g s
      → s.enabled ≡ true
      → s.starts ≡ starts
      → t.idle_ticks + n < 100
      → IsResumed k starts (run_ticks n s >>= on_start_cw_requested audio)
  unfolding run_ticks
  resumes_later audio zero k t g s starts p on e h = rw (sym e) (resumes_now audio k t g s p on)
  resumes_later audio (suc n) k t g s starts p on e h =
      let g' = (generate_chunk t.num_samples g).1 in
      let same = ticked-same t g s in
      rw (run_ticks-suc n k t g s p) (elim (ticked-IsPushing k t g g' s p refl) [
        | inl q ↦ absurd (omega arith)
        | inr q ↦
            resumes_later audio n k (counted t g') g' (ticked t g s) starts q.0 (same.0 ∙ on)
              (same.1 ∙ e) (ground arith)
      ])

  -- While a tone or its silence is pushed to a sink, with the sound on: a key press before the ticks
  -- without a tone have reached a hundred uses the sink as it runs, without a start of the sink, and
  -- its tone begins anew.
  gap_keeps_sink :
      (audio : Audio D) (n : ℕ) (k : AudioSink) (t : PushTimer) (g : CwGenerator) (s : Sound D)
      → IsPushing k t g s
      → s.enabled ≡ true
      → t.idle_ticks + n < 100
      → IsResumed k s.starts (run_ticks n s >>= on_start_cw_requested audio)
  gap_keeps_sink audio n k t g s p on h = resumes_later audio n k t g s s.starts p on refl h
