-- ===== src/Config/RoundTrip.antt =====
-- pc/config.c: settings that `vhdb_config_save` writes are read back by `vhdb_config_load`.
use vhdb.Base.{
  ℕ, ◌<◌, ◌≤◌, ◌≡◌, refl, arith, sym, ap, ◌∙◌, inl, inr, Bool, true, List, [], ◌∷◌, ◌++◌,
  append_assoc, length-append, Option, some, length, equal, until_nul, codes, Option-cases,
}
use vhdb.Base.Decimal.{IsInt, print_int, read_int-print_int}
use vhdb.Base.Lines.{lines, lines_line, copied_lem, Lacks-append, before-append, behind-append}
use vhdb.Config.{
  Config, Env, Target, no_target, ftp, folder, is_blank, trim_cons, trim, skip_blanks, target_of,
  target_name, assign, load_text, load_lines, load, setting, config_text, save, config_file,
  defaults,
}
use vhdb.Config.Trim.{
  Letters, Survives, IsKey, IsKey-Letters, trim-append, trim_newline, until_nul_newline,
  Survives-print_int,
}

-- What is left of ` = value` once it is trimmed.
trim_value :
    (value : List ℕ)
    → trim value ≡ value
    → skip_blanks value ≡ value
    → (w : List ℕ) × (trim (b'=' ∷ b' ' ∷ value) ≡ b'=' ∷ w) × (skip_blanks w ≡ value)
unfolding trim trim_cons skip_blanks is_blank
trim_value [] e s = ([], refl, refl)
trim_value (c ∷ cs) e s = (b' ' ∷ c ∷ cs, rw e refl, s)

load_text-key :
    (cfg : Config) (c : ℕ) (cs w : List ℕ)
    → IsKey c cs
    → load_text cfg (((c ∷ cs) ++ (b' ' ∷ [])) ++ (b'=' ∷ w)) ≡ assign cfg (c ∷ cs) (skip_blanks w)
unfolding load_text
load_text-key cfg c cs w k =
    let lacks = Lacks-append b'=' (c ∷ cs) (b' ' ∷ []) k.no_equals (omega arith) in
    let cut = before-append b'=' ((c ∷ cs) ++ (b' ' ∷ [])) w lacks in
    let rest = behind-append b'=' ((c ∷ cs) ++ (b' ' ∷ [])) w lacks in
    let bare = k.bare in let plain = k.no_comment in let free = k.no_section in ground arith

load_lines-cons :
    (cfg : Config) (line : List ℕ) (more : List (List ℕ))
    → load_lines cfg (line ∷ more) ≡ load_lines (load_text cfg (trim (until_nul line))) more
unfolding load_lines
load_lines-cons cfg line more = refl

-- The lines of a setting and what follows: the setting is assigned.
load_lines-setting :
    (cfg : Config) (c : ℕ) (cs value rest : List ℕ) (size : ℕ)
    → IsKey c cs
    → Survives size value
    → size ≤ 256
    → load_lines cfg (lines 639 639 (setting (c ∷ cs) value rest))
      ≡ load_lines (assign cfg (c ∷ cs) value) (lines 639 639 rest)
unfolding setting
load_lines-setting cfg c cs value rest size k v small =
    let (w, trimmed, kept) = trim_value value v.trimmed v.starts in
    let key = c ∷ cs in
    let text = key ++ (b' ' ∷ b'=' ∷ b' ' ∷ value) in
    let no_newline =
      Lacks-append b'\n' key (b' ' ∷ b'=' ∷ b' ' ∷ value) k.no_newline
        (omega arith, (omega arith, (omega arith, v.no_newline))) in
    let no_nul =
      Lacks-append 0 key (b' ' ∷ b'=' ∷ b' ' ∷ value) k.no_nul
        (omega arith, (omega arith, (omega arith, v.no_nul))) in
    let fits : length text < 639 =
      omega (arith, length-append key (b' ' ∷ b'=' ∷ b' ' ∷ value), v.fits, k.short) in
    let shape : text ≡ (key ++ (b' ' ∷ [])) ++ (b'=' ∷ b' ' ∷ value) =
      sym (append_assoc key (b' ' ∷ []) (b'=' ∷ b' ' ∷ value)) in
    let bare : trim (until_nul (text ++ (b'\n' ∷ []))) ≡ (key ++ (b' ' ∷ [])) ++ (b'=' ∷ w) =
      ap trim (until_nul_newline text no_nul)
      ∙ (trim_newline text
          ∙ (ap trim shape
              ∙ (trim-append (key ++ (b' ' ∷ [])) (b'=' ∷ b' ' ∷ value)
                    (rw trimmed (λ e. ground arith))
                  ∙ ap (λ ys. (key ++ (b' ' ∷ [])) ++ ys) trimmed))) in
    rw
      (
        lines_line 639 639 text rest no_newline fits,
        load_lines-cons cfg (text ++ (b'\n' ∷ [])) (lines 639 639 rest),
        bare,
        load_text-key cfg c cs w k,
        kept,
      )
      refl

-- What settings must be like to be written and read back.
pub record Writable (cfg : Config) : Type 0 where
  pub catalog_url : Survives 256 cfg.catalog_url
  pub host : Survives 64 cfg.host
  pub port : IsInt cfg.port
  pub user : Survives 64 cfg.user
  pub pass : Survives 64 cfg.pass
  pub vpk : Survives 160 cfg.vpk
  pub data_dir : Survives 160 cfg.data_dir
  pub pspemu : Survives 160 cfg.pspemu
  pub keep : Survives 256 cfg.keep

Survives-target_name : (t : Target) → Survives 64 (target_name t)
unfolding trim trim_cons skip_blanks is_blank target_name
Survives-target_name no_target = record {
  no_nul = omega arith;
  no_newline = omega arith;
  trimmed = refl;
  starts = refl;
  fits = omega arith;
}
Survives-target_name ftp = record {
  no_nul = omega arith;
  no_newline = omega arith;
  trimmed = refl;
  starts = refl;
  fits = omega arith;
}
Survives-target_name folder = record {
  no_nul = omega arith;
  no_newline = omega arith;
  trimmed = refl;
  starts = refl;
  fits = omega arith;
}

target_of-target_name : (t : Target) → target_of (target_name t) ≡ t
unfolding target_of target_name equal
target_of-target_name no_target = refl
target_of-target_name ftp = refl
target_of-target_name folder = refl

middle :
    (cfg : Config) (rest : List ℕ)
    → load_lines cfg (lines 639 639 (b'\n' ∷ (codes "[target]" ++ (b'\n' ∷ rest))))
      ≡ load_lines cfg (lines 639 639 rest)
unfolding load_lines load_text trim trim_cons is_blank
middle cfg rest =
    rw
      (
        lines_line 639 639 [] (codes "[target]" ++ (b'\n' ∷ rest)) tt (omega arith),
        lines_line 639 639 (codes "[target]") rest (omega arith) (omega arith),
      )
      refl

load_lines-word :
    (cfg : Config) (c : ℕ) (cs value rest : List ℕ) (size : ℕ)
    → Letters (c ∷ cs)
    → length cs < 6
    → Survives size value
    → size ≤ 256
    → load_lines cfg (lines 639 639 (setting (c ∷ cs) value rest))
      ≡ load_lines (assign cfg (c ∷ cs) value) (lines 639 639 rest)
load_lines-word cfg c cs value rest size l short v small =
    load_lines-setting cfg c cs value rest size (IsKey-Letters c cs l short) v small

-- The lines of the text assign every setting.
load_lines-config_text :
    (start cfg : Config) → Writable cfg → load_lines start (lines 639 639 (config_text cfg)) ≡ cfg
unfolding config_text assign equal lines load_lines
load_lines-config_text start cfg w =
    rw
      (
        load_lines-word _ b'u' (codes "rl") cfg.catalog_url _ 256 (omega arith) (omega arith)
            w.catalog_url (omega arith),
        middle,
        load_lines-word _ b'k' (codes "ind") (target_name cfg.target) _ 64 (omega arith)
            (omega arith) (Survives-target_name cfg.target) (omega arith),
        load_lines-word _ b'h' (codes "ost") cfg.host _ 64 (omega arith) (omega arith) w.host
            (omega arith),
        load_lines-word _ b'p' (codes "ort") (print_int cfg.port) _ 64 (omega arith) (omega arith)
            (Survives-print_int cfg.port w.port) (omega arith),
        load_lines-word _ b'u' (codes "ser") cfg.user _ 64 (omega arith) (omega arith) w.user
            (omega arith),
        load_lines-word _ b'p' (codes "ass") cfg.pass _ 64 (omega arith) (omega arith) w.pass
            (omega arith),
        load_lines-word _ b'v' (codes "pk") cfg.vpk _ 160 (omega arith) (omega arith) w.vpk
            (omega arith),
        load_lines-word _ b'd' (codes "ata") cfg.data_dir _ 160 (omega arith) (omega arith)
            w.data_dir (omega arith),
        load_lines-word _ b'p' (codes "spemu") cfg.pspemu _ 160 (omega arith) (omega arith) w.pspemu
            (omega arith),
        load_lines-word _ b'k' (codes "eep") cfg.keep _ 256 (omega arith) (omega arith) w.keep
            (omega arith),
        copied_lem 256 cfg.catalog_url w.catalog_url.fits,
        target_of-target_name cfg.target,
        copied_lem 64 cfg.host w.host.fits,
        read_int-print_int cfg.port,
        copied_lem 64 cfg.user w.user.fits,
        copied_lem 64 cfg.pass w.pass.fits,
        copied_lem 160 cfg.vpk w.vpk.fits,
        copied_lem 160 cfg.data_dir w.data_dir.fits,
        copied_lem 160 cfg.pspemu w.pspemu.fits,
        copied_lem 256 cfg.keep w.keep.fits,
      )
      refl

-- Settings that `vhdb_config_save` writes are read back by `vhdb_config_load` as they were, if no
-- value holds a NUL or a newline, begins or ends with a blank or ends with a carriage return, and
-- each fits its array; the port is any 32-bit integer.
pub load-save_config :
    (env : Env) (opens : List ℕ → Bool) (files : List ℕ → Option (List ℕ)) (cfg : Config)
    (path text : List ℕ)
    → Writable cfg
    → (save env opens cfg).file ≡ some (path, text)
    → files path ≡ some text
    → load env files ≡ (cfg, true)
unfolding save load
load-save_config env opens files cfg path text w e read =
    elim (Option-cases (config_file env 512)) [
      | inl none_fits ↦ absurd (ground arith)
      | inr (name, found) ↦
          let same : name ≡ path = ground arith in
          let written : config_text cfg ≡ text = ground arith in
          let back : load_lines (defaults env) (lines 639 639 text) ≡ cfg =
            ap (λ t. load_lines (defaults env) (lines 639 639 t)) (sym written)
            ∙ load_lines-config_text (defaults env) cfg w in
          let there : files name ≡ some text = ap files same ∙ read in ground arith
    ]
