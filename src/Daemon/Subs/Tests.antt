-- ===== src/Daemon/Subs/Tests.antt =====
-- Subscriptions at concrete input.
use ppz.Base.{
  ◌≡◌, ◌≢◌, ◌↔◌, ◌⊎◌, inl, refl, Bool, true, not, [], ◌∷◌, In, Text, text_eq, has_prefix, arith,
}
use ppz.Daemon.Heartbeats.{text_lt}
use ppz.Daemon.Cursors.{session}
use ppz.Daemon.Subs.{
  Subs, missing, holds, SubsDisk, put_file, insert_string, sort_strings, read_subs_file, is_missing,
  adopt, load_locked, save_locked, list, add, targets, Listing, entries, sweep_entries, sweep_dir,
  sweep_handle,
}
use ppz.Daemon.Subs.Added.{add_iff}
use ppz.Daemon.Subs.Members.{Adds}
use ppz.Daemon.Subs.Swept.{sweep_handle_iff}

abbrev works : SubsDisk
works = record {
  stats = true;
  made_account = true;
  adopted = true;
  made_dir = true;
  wrote = true;
  renamed = true;
}

abbrev log : Text
log = b'b' ∷ b'.' ∷ b'l' ∷ []

abbrev room : Text
room = b'r' ∷ []

abbrev mine : Text
mine = b'm' ∷ []

abbrev org : Text
org = b'o' ∷ []

abbrev bob : Text
bob = b'b' ∷ []

-- The file of an older daemon, in the flat layout.
abbrev legacy : Subs
unfolding put_file
legacy = put_file [] mine (holds (room ∷ log ∷ [])) (λ d s. missing)

-- The account adopts the file of the flat layout.
listed : (list works org mine legacy).0 ≡ log ∷ room ∷ []
unfolding list load_locked adopt put_file session read_subs_file sort_strings insert_string text_lt
    is_missing text_eq
listed = refl

added : (add works org mine (log ∷ bob ∷ []) legacy).0 ≡ true
unfolding add save_locked load_locked
added = ground arith

add_iff_example :
    In bob (read_subs_file ((add works org mine (log ∷ bob ∷ []) legacy).1 org (session mine)))
    ↔ (In bob (list works org mine legacy).0 ⊎ Adds bob (log ∷ bob ∷ []))
add_iff_example = add_iff bob works org mine (log ∷ bob ∷ []) legacy added

abbrev all_written : Text → Text → Bool
all_written d s = true

abbrev listing : Text → Listing
listing d = entries (mine ∷ [])

sweeps : (sweep_handle all_written listing [] bob legacy).0 ≡ true
unfolding sweep_handle sweep_dir sweep_entries text_eq
sweeps = ground arith

swept : read_subs_file ((sweep_handle all_written listing [] bob legacy).1 [] mine) ≡ room ∷ []
unfolding sweep_handle sweep_dir sweep_entries put_file read_subs_file sort_strings insert_string
    text_lt targets has_prefix text_eq
swept = refl

some_handle : bob ≢ []
some_handle e = ground arith

sweep_handle_iff_example :
    In log (read_subs_file ((sweep_handle all_written listing [] bob legacy).1 [] mine))
    ↔ (In log (read_subs_file (legacy [] mine)) × (not (targets bob log) ≡ true))
sweep_handle_iff_example =
    sweep_handle_iff log all_written listing [] bob legacy [] mine some_handle (inl refl)
      (λ h. inl refl) sweeps
