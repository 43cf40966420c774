-- ===== src/Log/Threshold.antt =====
-- What the level of the log does to the messages below it.
use torrent_sync.Common.{
  Bool-cases, inl, inr, ◌∙◌, sym, subst, ◌+◌, ◌≤◌, ◌≡◌, refl, Bool, true, false, leb, some, List,
  [], ◌∷◌, ◌++◌, map, length, length-append, returns, arith,
}
use torrent_sync.NodeData.Codec.{Buffer}
use torrent_sync.Log.{
  Level, debug, info, warn, error, rank, raised, Sink, Logger, sinks_of, get_instance,
  set_log_level, make_stream, append, put_text, deliver, flush, end_text, end_message, log,
  level_to_string,
}

abbrev pub delivered : Level → Buffer → List Sink → List Sink
delivered level text sinks = map (deliver level text) sinks

-- Two lists of sinks of the same length, related sink by sink.
pub data SinkBySink (R : Sink → Sink → Type 0) : List Sink → List Sink → Type 0 where
  no_sinks : SinkBySink R [] []
  next_sink :
      {s u : Sink} {ss us : List Sink} → R s u → SinkBySink R ss us → SinkBySink R (s ∷ ss) (u ∷ us)

-- The second sink has the level of the first one, and holds no fewer texts.
abbrev pub IsNoFuller : Sink → Sink → Type 0
IsNoFuller s u = (s.level ≡ u.level) × (length s.written ≤ length u.written)

-- The second sink is the first one with one more text.
abbrev pub HasMore : Buffer → Sink → Sink → Type 0
HasMore text s u = (s.level ≡ u.level) × (u.written ≡ s.written ++ text ∷ [])

-- A flush changes no level and no text.
SinkBySink-flush :
    (R : Sink → Sink → Type 0) (force : Bool) {ss us : List Sink}
    → ((s u : Sink) → R s u → R s (record u { flushed = u.flushed + 1 }))
    → SinkBySink R ss us
    → SinkBySink R ss (flush force us)
unfolding flush
SinkBySink-flush R false keep h = h
SinkBySink-flush R true keep no_sinks = no_sinks
SinkBySink-flush R true keep (next_sink {s} {u} one others) =
    next_sink (keep s u one) (SinkBySink-flush R true keep others)

-- Both lists flushed.
flush-SinkBySink :
    (R : Sink → Sink → Type 0) (force : Bool) {ss us : List Sink}
    → ((s u : Sink)
        → R s u
        → R (record s { flushed = s.flushed + 1 }) (record u { flushed = u.flushed + 1 }))
    → SinkBySink R ss us
    → SinkBySink R (flush force ss) (flush force us)
unfolding flush
flush-SinkBySink R false keep h = h
flush-SinkBySink R true keep no_sinks = no_sinks
flush-SinkBySink R true keep (next_sink {s} {u} one others) =
    next_sink (keep s u one) (flush-SinkBySink R true keep others)

level-deliver : (level : Level) (text : Buffer) (s : Sink) → (deliver level text s).level ≡ s.level
unfolding deliver
level-deliver level text s = elim (Bool-cases (leb (rank s.level) (rank level))) [
  | inl e ↦ rw e refl
  | inr e ↦ rw e refl
]

length-deliver :
    (level higher : Level) (text other : Buffer) (s : Sink)
    → rank level ≤ rank higher
    → length (deliver level text s).written ≤ length (deliver higher other s).written
unfolding deliver
length-deliver level higher text other s h =
    ground (arith, h, length-append s.written (text ∷ []), length-append s.written (other ∷ []))

delivered_mono :
    (level higher : Level) (text other : Buffer) (sinks : List Sink)
    → rank level ≤ rank higher
    → SinkBySink IsNoFuller (delivered level text sinks) (delivered higher other sinks)
delivered_mono level higher text other [] h = no_sinks
delivered_mono level higher text other (s ∷ ss) h =
    next_sink
      (
        level-deliver level text s ∙ sym (level-deliver higher other s),
        length-deliver level higher text other s h,
      )
      (delivered_mono level higher text other ss h)

-- The line of a message.
abbrev pub line : Buffer → Level → Buffer → Buffer
line timestamp level text =
    ((91 ∷ timestamp ++ 32 ∷ level_to_string level ++ 93 ∷ 32 ∷ []) ++ text) ++ 10 ∷ []

-- The sinks after a message.
abbrev pub logged : Buffer → Level → Buffer → Logger → List Sink
logged timestamp level text l = flush l.force_flush (
    delivered (raised l.log_level level) (line timestamp (raised l.log_level level) text)
      (sinks_of l.instance_sinks))

log-logged :
    (timestamp : Buffer) (level : Level) (text : Buffer) (l : Logger)
    → log timestamp level text l
      ≡ returns (record l { instance_sinks = some (logged timestamp level text l) })
unfolding log get_instance make_stream append put_text end_message end_text sinks_of
log-logged timestamp level text l = refl

raised_mono :
    (low high level : Level)
    → rank low ≤ rank high
    → rank (raised low level) ≤ rank (raised high level)
unfolding raised
raised_mono low high level h = ground (arith, h)

raised_error : (level : Level) → raised error level ≡ error
unfolding raised rank
raised_error debug = refl
raised_error info = refl
raised_error warn = refl
raised_error error = refl

rank_error : (level : Level) → leb (rank level) (rank error) ≡ true
unfolding rank
rank_error debug = refl
rank_error info = refl
rank_error warn = refl
rank_error error = refl

-- No sink has a level above the highest one.
delivered_all :
    (text : Buffer) (sinks : List Sink)
    → SinkBySink (HasMore text) sinks (delivered error text sinks)
unfolding deliver
delivered_all text [] = no_sinks
delivered_all text (s ∷ ss) =
    next_sink (sym (level-deliver error text s), rw (rank_error s.level) refl)
      (delivered_all text ss)

-- Raising the level of the log never keeps a message from a sink: sink by sink, no fewer texts are
-- there after the message under a higher level of the log than after it under a lower level. Under
-- the highest level every sink gets the message: its line, as an error, stands behind the texts
-- that the sink held.
pub log_level_mono :
    (timestamp : Buffer) (level : Level) (text : Buffer) (l : Logger) (low high : Level)
    → rank low ≤ rank high
    → (after_low after_high after_error : Logger) × (log timestamp level text (set_log_level low l)
        ≡ returns after_low)
      × (log timestamp level text (set_log_level high l) ≡ returns after_high)
      × (log timestamp level text (set_log_level error l) ≡ returns after_error)
      × SinkBySink IsNoFuller
          (sinks_of after_low.instance_sinks)
          (sinks_of after_high.instance_sinks)
      × SinkBySink
          (HasMore (line timestamp error text))
          (sinks_of l.instance_sinks)
          (sinks_of after_error.instance_sinks)
unfolding set_log_level sinks_of
log_level_mono timestamp level text l low high h = (
  record l {
    log_level = low;
    instance_sinks = some (logged timestamp level text (set_log_level low l));
  },
  record l {
    log_level = high;
    instance_sinks = some (logged timestamp level text (set_log_level high l));
  },
  record l {
    log_level = error;
    instance_sinks = some (logged timestamp level text (set_log_level error l));
  },
  log-logged timestamp level text (set_log_level low l),
  log-logged timestamp level text (set_log_level high l),
  log-logged timestamp level text (set_log_level error l),
  flush-SinkBySink IsNoFuller l.force_flush (λ s u held. held)
      (delivered_mono (raised low level) (raised high level)
        (line timestamp (raised low level) text) (line timestamp (raised high level) text) sinks
        (raised_mono low high level h)),
  SinkBySink-flush (HasMore (line timestamp error text)) l.force_flush (λ s u held. held)
      (subst
        (λ top.
          SinkBySink (HasMore (line timestamp error text)) sinks
            (delivered top (line timestamp top text) sinks))
        (sym (raised_error level)) (delivered_all (line timestamp error text) sinks)),
)
  where
    sinks : List Sink
    sinks = sinks_of l.instance_sinks
