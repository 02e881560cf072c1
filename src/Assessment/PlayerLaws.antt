-- ===== src/Assessment/PlayerLaws.antt =====
-- A seek does not move the audio of a listening question by a second or more.
use ai_agentic_english.Prelude.{
  ℕ, zero, suc, ◌<◌, false, true, ◌||◌, ◌≡◌, refl, arith, ltb, if_both,
}
use ai_agentic_english.Assessment.Player.{
  Player, update_playback_time, keep_playback_position_locked, distance,
}

-- The learner moves the audio, and the page hears of the time a number of times, before it hears of
-- the seeking.
abbrev pub seek : ℕ → ℕ → Player → Player
seek target zero p = record p { element_time = target; seeking = true }
seek target (suc n) p = update_playback_time (seek target n p)

record IsSeeking (p q : Player) : Type 0 where
  seeking : q.seeking ≡ true
  last_known_time : q.last_known_time ≡ p.last_known_time
  is_restoring_time : q.is_restoring_time ≡ p.is_restoring_time

seek-IsSeeking : (target n : ℕ) (p : Player) → IsSeeking p (seek target n p)
unfolding update_playback_time
seek-IsSeeking target zero p = record {
  seeking = refl;
  last_known_time = refl;
  is_restoring_time = refl;
}
seek-IsSeeking target (suc n) p =
    let h = seek-IsSeeking target n p in
    record {
      seeking = h.seeking;
      last_known_time = ground (arith, h.seeking, h.last_known_time);
      is_restoring_time = h.is_restoring_time;
    }

record IsLocked (p q : Player) : Type 0 where
  near : distance q.element_time q.last_known_time < 1000
  last_known_time : q.last_known_time ≡ p.last_known_time

keep-IsLocked :
    (p : Player) → p.is_restoring_time ≡ false → IsLocked p (keep_playback_position_locked p)
unfolding keep_playback_position_locked
keep-IsLocked p h =
    if_both (IsLocked p)
      (p.is_restoring_time || ltb (distance p.element_time p.last_known_time) 1000)
      (λ e. record { near = ground (arith, e, h); last_known_time = refl })
      (λ e. record { near = omega arith; last_known_time = refl })

-- Wherever the learner seeks to while no restoration is under way, and however often the page hears
-- of the time first, once it hears of the seeking the audio is less than a second from the last
-- position that playback is known to have reached, which the seek has not moved.
pub keep_playback_position_locked-seek :
    (target n : ℕ) (p : Player)
    → p.is_restoring_time ≡ false
    → (distance (keep_playback_position_locked (seek target n p)).element_time p.last_known_time
        < 1000)
      × ((keep_playback_position_locked (seek target n p)).last_known_time ≡ p.last_known_time)
keep_playback_position_locked-seek target n p h =
    let s = seek-IsSeeking target n p in
    let k = keep-IsLocked (seek target n p) (ground (arith, s.is_restoring_time, h)) in
    (
      omega (arith, k.near, k.last_known_time, s.last_known_time),
      ground (arith, k.last_known_time, s.last_known_time),
    )
