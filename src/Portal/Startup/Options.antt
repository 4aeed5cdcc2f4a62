-- ===== src/Portal/Startup/Options.antt =====
-- The packet that a client of version 3.0 sends: its names and values are read back.
use dbms.Prelude.{
  ℕ, zero, suc, ◌+◌, ◌^◌, ◌<◌, ◌≡◌, ◌≢◌, refl, subst, sym, ap, ◌∙◌, some, List, [], ◌∷◌, ◌++◌, true,
  Bytes, length, drop, length-append, drop-append, ltb, lt→ltb, ==_iff, if◌then◌else◌, bytes_eq,
  bytes_eq_sound, codes, arith, Bool-cases, inl, inr,
}
use mathlib.Core.List.{append_assoc, append-nil}
use dbms.Portal.Session.{Session, done}
use dbms.Portal.Startup.{until_zero, set_option, option_value, option_name, scan_options}

-- A string that holds no zero.
abbrev pub IsText : Bytes → Type 0
IsText [] = Unit
IsText (c ∷ s) = (c ≢ 0) × IsText s

abbrev pub AreTexts : List (Bytes × Bytes) → Type 0
AreTexts [] = Unit
AreTexts ((name, value) ∷ options) =
    (0 < length name) × IsText name × IsText value × AreTexts options

-- Each name and each value with a zero behind it.
abbrev pub pairs : List (Bytes × Bytes) → Bytes
pairs [] = []
pairs ((name, value) ∷ options) = name ++ 0 ∷ (value ++ 0 ∷ pairs options)

abbrev pub set_options : List (Bytes × Bytes) → Session → Session
set_options [] s = s
set_options ((name, value) ∷ options) s = set_options options (set_option name value s)

until_zero-text : (s rest : Bytes) → IsText s → until_zero (s ++ 0 ∷ rest) ≡ some s
unfolding until_zero
until_zero-text [] rest t = refl
until_zero-text (c ∷ s) rest (ne, t) = ground (arith, until_zero-text s rest t, ==_iff c 0)

drop-nil : (k : ℕ) → drop {A = ℕ} k [] ≡ []
drop-nil zero = refl
drop-nil (suc k) = refl

drop-add : (o k : ℕ) (b : Bytes) → drop (o + k) b ≡ drop k (drop o b)
drop-add zero k b = let e : 0 + k ≡ k = omega arith in rw e refl
drop-add (suc o) k [] = drop-nil (suc o + k) ∙ sym (drop-nil k)
drop-add (suc o) k (x ∷ b) = let e : suc o + k ≡ suc (o + k) = omega arith in rw e (drop-add o k b)

-- the rest of a block behind a string and its zero
drop-string :
    (o : ℕ) (s rest block : Bytes)
    → drop o block ≡ s ++ 0 ∷ rest
    → drop (o + length s + 1) block ≡ rest
drop-string o s rest block h =
    let e : o + length s + 1 ≡ o + (length s + 1) = omega arith in
    rw e (
      drop-add o (length s + 1) block
      ∙ ap (drop (length s + 1)) h
      ∙ drop-add (length s) 1 (s ++ 0 ∷ rest)
      ∙ ap (drop 1) (drop-append s (0 ∷ rest)))

pub length-pairs :
    (name value : Bytes) (options : List (Bytes × Bytes))
    → length (pairs ((name, value) ∷ options))
      ≡ length name + 1 + length value + 1 + length (pairs options)
length-pairs name value options = omega (
  arith,
  length-append name (0 ∷ (value ++ 0 ∷ pairs options)),
  length-append value (0 ∷ pairs options),
)

-- The scan reads all pairs, and ends at the zero behind them.
pub scan_options-pairs :
    (fuel : ℕ) (block : Bytes) (len offset : ℕ) (s : Session) (options : List (Bytes × Bytes))
    (rest : Bytes)
    → length options < fuel
    → AreTexts options
    → len < 2 ^ 31
    → offset + length (pairs options) + 1 ≡ len
    → drop offset block ≡ pairs options ++ 0 ∷ rest
    → scan_options fuel block len offset s
      ≡ done (offset + length (pairs options)) (set_options options s)
unfolding scan_options option_name option_value
scan_options-pairs zero block len offset s options rest f t w e d = absurd (omega arith)
scan_options-pairs (suc fuel) block len offset s [] rest f t w e d =
    let lt : ltb offset len ≡ true = lt→ltb offset len (omega arith) in
    let z = until_zero-text [] rest tt in
    let k : offset + length {A = ℕ} [] ≡ offset = omega arith in
    rw (scan_options, lt) (rw (ap until_zero d ∙ z) (rw k refl))
scan_options-pairs (suc fuel) block len offset s (([], value) ∷ options) rest f t w e d =
    absurd (omega (arith, t.0))
scan_options-pairs (suc fuel) block len offset s ((c ∷ n, value) ∷ options) rest f t w e d =
    let name = c ∷ n in
    let (pos, tn, tv, ts) = t in
    let more = pairs options ++ 0 ∷ rest in
    let l = length-pairs name value options in
    let at_name : drop offset block ≡ name ++ 0 ∷ (value ++ 0 ∷ more) =
      d
      ∙ append_assoc name (0 ∷ (value ++ 0 ∷ pairs options)) (0 ∷ rest)
      ∙ ap (λ x. name ++ 0 ∷ x) (append_assoc value (0 ∷ pairs options) (0 ∷ rest)) in
    let valoffset = offset + length name + 1 in
    let at_value = drop-string offset name (value ++ 0 ∷ more) block at_name in
    let offset' = valoffset + length value + 1 in
    let at_next = drop-string valoffset value more block at_value in
    let read_name = ap until_zero at_name ∙ until_zero-text name (value ++ 0 ∷ more) tn in
    let read_value = ap until_zero at_value ∙ until_zero-text value more tv in
    let lt : ltb offset len ≡ true = lt→ltb offset len (omega (arith, l, e)) in
    let lt₁ : ltb valoffset (2 ^ 31) ≡ true = lt→ltb valoffset (2 ^ 31) (omega (arith, l, e, w)) in
    let lt₂ : ltb valoffset len ≡ true = lt→ltb valoffset len (omega (arith, l, e)) in
    let ih =
      scan_options-pairs fuel block len offset' (set_option name value s) options rest (omega arith)
        ts w (omega (arith, l, e)) at_next in
    let same : offset' + length (pairs options)
        ≡ offset + length (pairs ((name, value) ∷ options)) =
      omega (arith, l) in
    rw (scan_options, lt)
      (rw read_name (
        rw (option_name, lt₁)
          (rw lt₂ (
            rw read_value
              (ih ∙ ap (λ k. done k (set_options options (set_option name value s))) same)))))

-- The value that stands last under a name, or the one from before.
abbrev pub last_value : Bytes → Bytes → List (Bytes × Bytes) → Bytes
last_value key old [] = old
last_value key old ((name, value) ∷ options) =
    last_value key (if bytes_eq name key then value else old) options

-- What options do to a session.
pub record IsOpened (s t : Session) (options : List (Bytes × Bytes)) : Type 0 where
  pub all_options : t.guc_options ≡ s.guc_options ++ options
  pub database : t.database_name ≡ last_value (codes "database") s.database_name options
  pub user : t.user_name ≡ last_value (codes "user") s.user_name options
  pub same_incoming : t.incoming ≡ s.incoming
  pub same_outgoing : t.outgoing ≡ s.outgoing
  pub same_write_msg : t.write_msg ≡ s.write_msg

set_option-user :
    (name value : Bytes) (s : Session)
    → (set_option name value s).user_name
      ≡ (if bytes_eq name (codes "user") then value else s.user_name)
unfolding set_option bytes_eq
set_option-user name value s = elim (Bool-cases (bytes_eq name (codes "user"))) [
  | inl e ↦
      subst
        (λ n.
          (set_option n value s).user_name
          ≡ (if bytes_eq n (codes "user") then value else s.user_name))
        (sym (bytes_eq_sound name (codes "user") e)) refl
  | inr e ↦ ground arith
]

set_option-same :
    (name value : Bytes) (s : Session)
    → ((set_option name value s).incoming ≡ s.incoming)
      × ((set_option name value s).outgoing ≡ s.outgoing)
      × ((set_option name value s).write_msg ≡ s.write_msg)
      × ((set_option name value s).guc_options ≡ s.guc_options ++ (name, value) ∷ [])
      × ((set_option name value s).database_name
          ≡ (if bytes_eq name (codes "database") then value else s.database_name))
unfolding set_option
set_option-same name value s = ground arith

pub set_options-IsOpened :
    (options : List (Bytes × Bytes)) (s : Session) → IsOpened s (set_options options s) options
set_options-IsOpened [] s = record {
  all_options = sym (append-nil s.guc_options);
  database = refl;
  user = refl;
  same_incoming = refl;
  same_outgoing = refl;
  same_write_msg = refl;
}
set_options-IsOpened ((name, value) ∷ options) s =
    let o = set_options-IsOpened options (set_option name value s) in
    let (i, w, b, g, d) = set_option-same name value s in
    record {
      all_options =
          o.all_options
          ∙ ap (λ l. l ++ options) g
          ∙ append_assoc s.guc_options ((name, value) ∷ []) options;
      database = o.database ∙ ap (λ v. last_value (codes "database") v options) d;
      user = o.user ∙ ap (λ v. last_value (codes "user") v options) (set_option-user name value s);
      same_incoming = o.same_incoming ∙ i;
      same_outgoing = o.same_outgoing ∙ w;
      same_write_msg = o.same_write_msg ∙ b;
    }
