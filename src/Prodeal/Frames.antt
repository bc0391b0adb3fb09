-- ===== src/Prodeal/Frames.antt =====
-- What the steps of src/prodeal.cc leave alone: all but files.
pub mod Logs
pub mod Moves
pub mod Steps
use mathlib.Core.List.{flatten}
use finger_move.Base.{Bool, Option, minus_one, none, pos, some, ℕ, ℤ}
use finger_move.Clib.{Bytes, lines}
use finger_move.Prodeal.Filter.{flt_log_file}
use finger_move.Prodeal.Names.{
  afp_name_file, bot_afps_file, flt_logs_file, get_afp_name, log_num_count, or_error, or_error_wb,
  top_afps_file,
}
use finger_move.Prodeal.Select.{bot_afp_file, top_afp_file, top_loop}
use finger_move.World.{
  Cmd, fclose_wb, fopen_rb, fopen_wb, list_dir, or_fault, pure, remove, sprintf_path, unit, ◌>>=◌,
  ◌>>◌,
}
use finger_move.World.Frames.{
  OnlyFiles, OnlyFiles->>=, OnlyFiles-fclose_wb, OnlyFiles-fopen_rb, OnlyFiles-fopen_wb,
  OnlyFiles-if, OnlyFiles-list_dir, OnlyFiles-or_fault, OnlyFiles-pure, OnlyFiles-remove,
  OnlyFiles-sprintf_path,
}

module _ {ℓ} {A : Type ℓ} where
  found :
      (k : A → Cmd ℤ) (o : Option A)
      → ((a : A) → OnlyFiles (k a))
      → OnlyFiles (elim o [ none ↦ pure minus_one | some a ↦ k a ])
  found k none h = OnlyFiles-pure minus_one
  found k (some a) h = h a

  pub OnlyFiles-or_error :
      (m : Cmd (Option A)) (k : A → Cmd ℤ)
      → OnlyFiles m
      → ((a : A) → OnlyFiles (k a))
      → OnlyFiles (or_error m k)
  OnlyFiles-or_error m k h g = OnlyFiles->>= m _ h (λ o. found k o g)

pub OnlyFiles-or_error_wb :
    (m : Cmd Bool) (k : Cmd ℤ) → OnlyFiles m → OnlyFiles k → OnlyFiles (or_error_wb m k)
OnlyFiles-or_error_wb m k h g =
    OnlyFiles->>= m _ h (λ b. OnlyFiles-if b k (pure minus_one) g (OnlyFiles-pure minus_one))

-- What a step does in the end: its file is written.
pub OnlyFiles-written : (p s : Bytes) (n : ℤ) → OnlyFiles (fclose_wb p s >> pure n)
OnlyFiles-written p s n =
    OnlyFiles->>= (fclose_wb p s) _ (OnlyFiles-fclose_wb p s) (λ _. OnlyFiles-pure n)

pub get_afp_name-OnlyFiles : (org dst : Bytes) → OnlyFiles (get_afp_name org dst)
unfolding get_afp_name
get_afp_name-OnlyFiles org dst =
    OnlyFiles-or_error (list_dir org) _ (OnlyFiles-list_dir org) (λ entries.
      OnlyFiles->>= (sprintf_path dst afp_name_file) _ (OnlyFiles-sprintf_path dst afp_name_file)
        (λ p.
          OnlyFiles-or_error_wb (fopen_wb p) _ (OnlyFiles-fopen_wb p)
            (OnlyFiles-written p _ (pos 0))))

-- A file is removed.
pub OnlyFiles-removed : (d n : Bytes) → OnlyFiles (do p ← sprintf_path d n; remove p; unit)
OnlyFiles-removed d n =
    OnlyFiles->>= (sprintf_path d n) _ (OnlyFiles-sprintf_path d n)
      (λ p. OnlyFiles->>= (remove p) _ (OnlyFiles-remove p) (λ _. OnlyFiles-pure tt))

pub flt_log_file-OnlyFiles : (org dst : Bytes) → OnlyFiles (flt_log_file org dst)
unfolding flt_log_file
flt_log_file-OnlyFiles org dst =
    OnlyFiles->>= (sprintf_path org afp_name_file) _ (OnlyFiles-sprintf_path org afp_name_file)
      (λ p. OnlyFiles-or_error (fopen_rb p) _ (OnlyFiles-fopen_rb p) (λ afps.
        OnlyFiles->>= (sprintf_path org log_num_count) _ (OnlyFiles-sprintf_path org log_num_count)
          (λ q. OnlyFiles-or_error (fopen_rb q) _ (OnlyFiles-fopen_rb q) (λ logs.
            OnlyFiles->>= (sprintf_path dst flt_logs_file) _
              (OnlyFiles-sprintf_path dst flt_logs_file)
              (λ r.
                OnlyFiles-or_error_wb (fopen_wb r) _ (OnlyFiles-fopen_wb r)
                  (OnlyFiles-written r _ (pos 0)))))))

pub top_afp_file-OnlyFiles :
    (limit : ℕ) (org dst : Bytes) (cnt : ℤ) → OnlyFiles (top_afp_file limit org dst cnt)
unfolding top_afp_file
top_afp_file-OnlyFiles limit org dst cnt =
    OnlyFiles->>= (sprintf_path org flt_logs_file) _ (OnlyFiles-sprintf_path org flt_logs_file)
      (λ p. OnlyFiles-or_error (fopen_rb p) _ (OnlyFiles-fopen_rb p) (λ logs.
        OnlyFiles->>= (sprintf_path dst top_afps_file) _ (OnlyFiles-sprintf_path dst top_afps_file)
          (λ q. OnlyFiles-or_error_wb (fopen_wb q) _ (OnlyFiles-fopen_wb q) (
            OnlyFiles->>= (or_fault (top_loop limit cnt (lines logs) 0)) _ (OnlyFiles-or_fault _)
              (λ r. OnlyFiles-written q r.1 (pos r.0))))))

pub bot_afp_file-OnlyFiles : (limit : ℕ) (org dst : Bytes) → OnlyFiles (bot_afp_file limit org dst)
unfolding bot_afp_file
bot_afp_file-OnlyFiles limit org dst =
    OnlyFiles->>= (sprintf_path org afp_name_file) _ (OnlyFiles-sprintf_path org afp_name_file)
      (λ p. OnlyFiles-or_error (fopen_rb p) _ (OnlyFiles-fopen_rb p) (λ afps.
        OnlyFiles->>= (sprintf_path org flt_logs_file) _ (OnlyFiles-sprintf_path org flt_logs_file)
          (λ q. OnlyFiles-or_error (fopen_rb q) _ (OnlyFiles-fopen_rb q) (λ logs.
            OnlyFiles->>= (sprintf_path dst bot_afps_file) _
              (OnlyFiles-sprintf_path dst bot_afps_file)
              (λ r. OnlyFiles-or_error_wb (fopen_wb r) _ (OnlyFiles-fopen_wb r) (
                OnlyFiles->>= (or_fault _) _ (OnlyFiles-or_fault _)
                  (λ t. OnlyFiles-written r _ t.0)))))))
