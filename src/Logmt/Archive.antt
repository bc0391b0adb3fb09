-- ===== src/Logmt/Archive.antt =====
-- The logger thread over any number of lines, with the logs that it leaves behind.
use mathlib.Core.Option
use mathlib.Core.List.{flatten}
use finger_move.Base.{
  All, List, Ordered, [], ap, append-nil, append_assoc, arith, false, if◌then◌else◌, leb, length,
  map, refl, some, subst, suc, sym, true, zero, ℕ, ◌%◌, ◌++◌, ◌+◌, ◌<◌, ◌==◌, ◌∙◌, ◌∷◌, ◌≡◌, ◌≢◌,
}
use finger_move.Clib.{Bytes, c_str}
use finger_move.Logmt.{Entry, log_file, log_round, max_log_count, mtlogthr}
use finger_move.Logmt.Append.{append_log-there, texts}
use finger_move.Logmt.Dated.{dated, dated-log_file}
use finger_move.Logmt.Rotate.{log_round-turns, lookup-turned, turned}
use finger_move.World.{World, done, writable, ◌>>=◌}
use finger_move.World.Files.{FilePath, FileTable, locate, lookup, lookup-put, put}

-- The count after a line.
abbrev pub next_count : ℕ → ℕ
next_count count = if leb max_log_count (count + 1) then 0 else count + 1

-- The times of the lines that find the count at 0: the log before gets a dated name then.
unfoldable pub turns : ℕ → List Entry → List ℕ
turns count [] = []
turns count (e ∷ es) =
    let rest = turns (next_count count) es in if count == 0 then e.time ∷ rest else rest

-- What a path holds, and what the logs hold that were dated at these times, one behind the other.
abbrev pub contents : FilePath → FileTable → Bytes
contents q fs = Option.get_or (lookup q fs) []

abbrev pub archive : List ℕ → FileTable → Bytes
archive ts fs = flatten (map (λ t. contents (locate (dated t)) fs) ts)

-- No second has two of them.
abbrev pub DistinctTimes : List ℕ → Type 0
DistinctTimes = Ordered (λ t u. locate (dated u) ≢ locate (dated t))

-- The dated logs can be written.
abbrev pub CanDate : World → List ℕ → Type 0
CanDate w = All (λ t. writable (locate (dated t)) w ≡ true)

log_round-counts :
    (count : ℕ) (e : Entry) (old : Bytes) (w : World)
    → 0 < count
    → lookup (locate log_file) w.files ≡ some old
    → log_round count e w
      ≡ done
          (next_count count)
          (record w { files = put (locate log_file) (old ++ c_str e.text) w.files })
unfolding log_round
log_round-counts count e old w some_lines h =
    let open_log : (count == 0) ≡ false = ground arith in
    rw open_log (rw (append_log-there (c_str e.text) old w h, ◌>>=◌))

turns-suc :
    (c : ℕ) (e : Entry) (es : List Entry) → turns (suc c) (e ∷ es) ≡ turns (next_count (suc c)) es
unfolding turns
turns-suc c e es = ground arith

archive-cons :
    (t : ℕ) (ts : List ℕ) (fs : FileTable)
    → archive (t ∷ ts) fs ≡ contents (locate (dated t)) fs ++ archive ts fs
unfolding flatten
archive-cons t ts fs = refl

archive-nil : (fs : FileTable) → archive [] fs ≡ []
unfolding flatten
archive-nil fs = refl

-- What a run over some lines leaves, with the times at which the log gets a dated name: the count,
-- the lines, and the other files.
abbrev Runs : List ℕ → ℕ → List Entry → Bytes → World → Type 0
Runs ts count es old w =
    (fs : FileTable) × (mtlogthr count es w
      ≡ done ((count + length es) % max_log_count) (record w { files = fs }))
    × (archive ts fs ++ contents (locate log_file) fs ≡ old ++ texts es)
    × ((q : FilePath)
        → q ≢ locate log_file
        → All (λ t. locate (dated t) ≢ q) ts
        → lookup q fs ≡ lookup q w.files)

Runs-zero :
    (ts : List ℕ) (e : Entry) (es : List Entry) (old : Bytes) (w : World)
    → lookup (locate log_file) w.files ≡ some old
    → writable (locate log_file) w ≡ true
    → writable (locate (dated e.time)) w ≡ true
    → All (λ u. locate (dated u) ≢ locate (dated e.time)) ts
    → Runs ts 1 es (c_str e.text) (record w { files = turned e.time old (c_str e.text) w.files })
    → Runs (e.time ∷ ts) 0 (e ∷ es) old w
unfolding mtlogthr
Runs-zero ts e es old w there free free' apart (fs, ran, lines_kept, others) =
    let d = locate (dated e.time) in
    let dated_log : lookup d fs ≡ some old =
      others d (dated-log_file e.time) apart
      ∙ lookup-turned e.time old (c_str e.text) d w.files
      ∙ ground (arith, dated-log_file e.time) in
    (
      fs,
      rw (log_round-turns e old w there free free', mtlogthr)
          (ran ∙ ap (λ (n : ℕ). done n (record w { files = fs })) (omega arith)),
      rw (archive-cons e.time ts fs, dated_log)
          (append_assoc old (archive ts fs) (contents (locate log_file) fs)
            ∙ ap (λ (s : Bytes). old ++ s) lines_kept),
      λ q h k.
          others q h k.1
          ∙ lookup-turned e.time old (c_str e.text) q w.files
          ∙ ground (arith, h, k.0),
    )

Runs-suc :
    (ts : List ℕ) (c : ℕ) (e : Entry) (es : List Entry) (old : Bytes) (w : World)
    → suc c < max_log_count
    → lookup (locate log_file) w.files ≡ some old
    → Runs ts
        (next_count (suc c))
        es
        (old ++ c_str e.text)
        (record w { files = put (locate log_file) (old ++ c_str e.text) w.files })
    → Runs ts (suc c) (e ∷ es) old w
unfolding mtlogthr
Runs-suc ts c e es old w room there (fs, ran, lines_kept, others) =
    let p = locate log_file in
    let count : (next_count (suc c) + length es) % max_log_count
        ≡ (suc c + suc (length es)) % max_log_count =
      ground arith in
    (
      fs,
      rw (log_round-counts (suc c) e old w (omega arith) there, mtlogthr)
          (ran ∙ ap (λ (n : ℕ). done n (record w { files = fs })) count),
      lines_kept ∙ append_assoc old (c_str e.text) (texts es),
      λ q h k. others q h k ∙ lookup-put p q (old ++ c_str e.text) w.files ∙ ground (arith, h),
    )

mtlogthr-Runs :
    (count : ℕ) (es : List Entry) (old : Bytes) (w : World)
    → count < max_log_count
    → lookup (locate log_file) w.files ≡ some old
    → writable (locate log_file) w ≡ true
    → CanDate w (turns count es)
    → DistinctTimes (turns count es)
    → Runs (turns count es) count es old w
unfolding mtlogthr turns
mtlogthr-Runs count [] old w room there free can distinct = (
  w.files,
  ap (λ (n : ℕ). done n w) (omega arith),
  rw (there, archive-nil w.files) (sym (append-nil old)),
  λ q h k. refl,
)
mtlogthr-Runs zero (e ∷ es) old w room there free can distinct =
    let p = locate log_file in
    let v = record w { files = turned e.time old (c_str e.text) w.files } in
    let held : lookup p v.files ≡ some (c_str e.text) =
      lookup-turned e.time old (c_str e.text) p w.files ∙ ground arith in
    Runs-zero (turns 1 es) e es old w there free can.0 distinct.0
      (mtlogthr-Runs 1 es (c_str e.text) v (omega arith) held free can.1 distinct.1)
mtlogthr-Runs (suc c) (e ∷ es) old w room there free can distinct =
    let p = locate log_file in
    let v = record w { files = put p (old ++ c_str e.text) w.files } in
    let held : lookup p v.files ≡ some (old ++ c_str e.text) =
      lookup-put p p (old ++ c_str e.text) w.files ∙ ground arith in
    let rest =
      mtlogthr-Runs (next_count (suc c)) es (old ++ c_str e.text) v (ground arith) held free in
    subst (λ (ts : List ℕ). CanDate w ts → DistinctTimes ts → Runs ts (suc c) (e ∷ es) old w)
      (sym (turns-suc c e es))
      (λ can' distinct'.
        Runs-suc (turns (next_count (suc c)) es) c e es old w room there (rest can' distinct'))
      can distinct

-- The logger thread, over any number of lines and from any count below MAX_LOG_COUNT, counts them
-- modulo MAX_LOG_COUNT and loses nothing: the logs that get a dated name during the run, in order,
-- and behind them the open log hold what the open log held at first and then all the lines. Every
-- path that is neither the open log nor one of those dated names holds what it held. The log is
-- there, it and the dated names can be written, and the log is not turned twice in one second.
pub mtlogthr-archive :
    (count : ℕ) (es : List Entry) (old : Bytes) (q : FilePath) (w : World)
    → count < max_log_count
    → lookup (locate log_file) w.files ≡ some old
    → writable (locate log_file) w ≡ true
    → CanDate w (turns count es)
    → DistinctTimes (turns count es)
    → q ≢ locate log_file
    → All (λ t. locate (dated t) ≢ q) (turns count es)
    → (w' : World) × (mtlogthr count es w ≡ done ((count + length es) % max_log_count) w')
      × (archive (turns count es) w'.files ++ contents (locate log_file) w'.files ≡ old ++ texts es)
      × (lookup q w'.files ≡ lookup q w.files)
mtlogthr-archive count es old q w room there free can distinct other undated =
    let (fs, ran, lines_kept, others) = mtlogthr-Runs count es old w room there free can distinct in
    (record w { files = fs }, ran, lines_kept, others q other undated)
