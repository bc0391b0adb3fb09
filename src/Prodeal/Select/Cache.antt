-- ===== src/Prodeal/Select/Cache.antt =====
-- `botAfpFile` on the files that the steps before it write.
use mathlib.Core.List.{flatten}
use finger_move.Base.{
  All, List, [], ap, append_assoc, keep, keep-map, length, length-map, map, not, pos, refl, some,
  take, take-map, true, ℕ, ℤ, ◌++◌, ◌-◌, ◌∙◌, ◌∷◌, ◌≡◌,
}
use finger_move.Clib.{Bytes, atoi, newline}
use finger_move.Clib.Laws.Lines.{IsText, lines-written, terminated, written}
use finger_move.Prodeal.Filter.{elem_ℤ, ids}
use finger_move.Prodeal.Names.{afp_name_file, bot_afps_file, flt_logs_file}
use finger_move.Prodeal.Names.Plain.{
  afp_name_file-IsPlain, bot_afps_file-IsPlain, flt_logs_file-IsPlain,
}
use finger_move.Prodeal.Select.{bot_afp_file, cold_loop, hot_loop}
use finger_move.Prodeal.Select.Bottom.{bot_loops, cold, last_count, song_text}
use finger_move.Prodeal.Select.Entries.{IsEntry, entry_line}
use finger_move.Prodeal.Select.Written.{AreLines, entry_text, lines-count_text}
use finger_move.World.{World, done, writable, ◌>>=◌}
use finger_move.World.Effects.{
  Fits, Holds, fopen_rb-there, fopen_wb-writable, saved, sprintf_path-fits,
}
use finger_move.World.Files.{locate-join, path}

-- The names of finger files whose number no count begins with, and the counts behind them.
abbrev pub cold_names : ℕ → List Bytes → List (Bytes × ℕ) → List Bytes
cold_names limit ns es =
    take limit (keep (λ n. not (elem_ℤ (atoi (terminated n)) (ids (map entry_line es)))) ns)

abbrev pub hot_counts : ℕ → List Bytes → List (Bytes × ℕ) → List (Bytes × ℕ)
hot_counts limit ns es = take (limit - length (cold_names limit ns es)) es

-- What the cache is to hold. The songs that were asked for stand there without an extension.
abbrev pub cache_names : ℕ → List Bytes → List (Bytes × ℕ) → List Bytes
cache_names limit ns es = cold_names limit ns es ++ map (λ e. e.0) (hot_counts limit ns es)

flatten-terminated : (ls : List Bytes) → flatten (map terminated ls) ≡ written ls
unfolding flatten
flatten-terminated [] = refl
flatten-terminated (l ∷ ls) =
    rw (flatten-terminated ls) (append_assoc l (newline ∷ []) (written ls))

written-song_text :
    (ls : List Bytes) (es : List (Bytes × ℕ))
    → written ls ++ song_text es ≡ written (ls ++ map (λ e. e.0) es)
written-song_text [] [] = refl
written-song_text [] (e ∷ es) = ap (λ (s : Bytes). e.0 ++ newline ∷ s) (written-song_text [] es)
written-song_text (l ∷ ls) es =
    append_assoc l (newline ∷ written ls) (song_text es)
    ∙ ap (λ (s : Bytes). l ++ newline ∷ s) (written-song_text ls es)

cold-terminated :
    (limit : ℕ) (asked : List ℤ) (ns : List Bytes)
    → take limit (cold asked (map terminated ns))
      ≡ map terminated (take limit (keep (λ n. not (elem_ℤ (atoi (terminated n)) asked)) ns))
cold-terminated limit asked ns =
    ap (take limit) (keep-map (λ l. not (elem_ℤ (atoi l) asked)) terminated ns)
    ∙ take-map terminated limit _

-- The loops on the lines of both files.
cache_loops :
    (limit : ℕ) (ns : List Bytes) (es : List (Bytes × ℕ))
    → All IsEntry es
    → let c = cold_loop limit (ids (map entry_line es)) (map terminated ns) 0 in
      let hot = hot_counts limit ns es in
      (c ≡ (length (cold_names limit ns es), written (cold_names limit ns es)))
      × (hot_loop limit (map entry_line es) (length (cold_names limit ns es)) (pos 0)
          ≡ some (last_count (pos 0) hot, song_text hot))
cache_loops limit ns es h =
    let (c, t, _) = bot_loops limit (ids (map entry_line es)) (map terminated ns) es h in
    let chosen_ns = cold_names limit ns es in
    let chosen = cold-terminated limit (ids (map entry_line es)) ns in
    let same_length : length (map terminated chosen_ns) ≡ length chosen_ns =
      length-map terminated chosen_ns in
    (rw (chosen, same_length, flatten-terminated chosen_ns) at c, rw (chosen, same_length) at t)

pub bot_afp_file-run :
    (limit : ℕ) (org dst : Bytes) (ns : List Bytes) (es : List (Bytes × ℕ)) (w : World)
    → All IsText ns
    → AreLines es
    → All IsEntry es
    → Holds org afp_name_file (written ns) w
    → Holds org flt_logs_file (written (map entry_text es)) w
    → Fits dst bot_afps_file
    → writable (path dst bot_afps_file) w ≡ true
    → bot_afp_file limit org dst w
      ≡ done
          (last_count (pos 0) (hot_counts limit ns es))
          (saved dst bot_afps_file (written (cache_names limit ns es)) w)
unfolding bot_afp_file
bot_afp_file-run limit org dst ns es w good_names good entries named counts fits free =
    let (c, t) = cache_loops limit ns es entries in
    rw (sprintf_path-fits org afp_name_file w named.fits, ◌>>=◌)
      (rw (fopen_rb-there org afp_name_file _ w afp_name_file-IsPlain.1 named, ◌>>=◌)
        (rw (sprintf_path-fits org flt_logs_file w counts.fits, ◌>>=◌)
          (rw (fopen_rb-there org flt_logs_file _ w flt_logs_file-IsPlain.1 counts, ◌>>=◌)
            (rw (sprintf_path-fits dst bot_afps_file w fits, ◌>>=◌)
              (rw (fopen_wb-writable dst bot_afps_file w bot_afps_file-IsPlain.1 free, ◌>>=◌)
                (rw (lines-written ns good_names, lines-count_text es good)
                  (rw (ap (λ (r : ℕ × Bytes). r.0) c, t, ◌>>=◌)
                    (rw
                      (
                        ap (λ (r : ℕ × Bytes). r.1) c,
                        written-song_text (cold_names limit ns es) (hot_counts limit ns es),
                      )
                      (rw (locate-join dst bot_afps_file bot_afps_file-IsPlain.1))))))))))
