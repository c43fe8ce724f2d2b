-- ===== src/Daemon/Subs.antt =====
-- internal/daemon/subs.go: the pipes that a session subscribes to.
mod Spaces
pub use Spaces.{trim_space}
pub mod Members
pub mod Added
pub mod Swept
mod Tests
use ppz.Base.{
  ℕ, ◌≡◌, Bool, true, false, not, ◌&&◌, ◌||◌, Option, none, some, List, [], ◌∷◌, ◌++◌,
  if◌then◌else◌, nat_eq, length, any, filter, Text, text_eq, has_prefix,
}
use ppz.Daemon.Heartbeats.{text_lt}
use ppz.Daemon.Cursors.{session}

-- A session's file: what it holds, unless there is none or it cannot be read and parsed. Subjects are
-- UTF-8, which JSON keeps.
pub data SubsFile : Type 0 where
  missing unparsed : SubsFile
  holds : List Text → SubsFile

-- The files by directory and session. The empty text is the directory `subs` itself, and an account
-- its own directory below that.
abbrev pub Subs : Type 0
Subs = Text → Text → SubsFile

unfoldable pub put_file : Text → Text → SubsFile → Subs → Subs
put_file dir sess file subs d s = if text_eq d dir && text_eq s sess then file else subs d s

-- `sort.Strings`.
unfoldable pub insert_string : Text → List Text → List Text
insert_string s [] = s ∷ []
insert_string s (t ∷ l) = if text_lt s t then s ∷ t ∷ l else t ∷ insert_string s l

unfoldable pub sort_strings : List Text → List Text
sort_strings [] = []
sort_strings (s ∷ l) = insert_string s (sort_strings l)

unfoldable pub read_subs_file : SubsFile → List Text
read_subs_file missing = []
read_subs_file unparsed = []
read_subs_file (holds subs) = sort_strings subs

-- What the file system answers to one call: to the two Stats, to the directory and the rename of an
-- adoption, and to the directory, the temporary file and the rename of a save.
pub record SubsDisk : Type 0 where
  pub stats : Bool
  pub made_account : Bool
  pub adopted : Bool
  pub made_dir : Bool
  pub wrote : Bool
  pub renamed : Bool

unfoldable pub is_missing : SubsFile → Bool
is_missing missing = true
is_missing unparsed = false
is_missing (holds subs) = false

-- The adoption of a file of the flat layout.
unfoldable pub adopt : SubsDisk → Text → Text → Subs → Subs
adopt disk account sess subs =
    if text_eq account []
    then subs
    else if disk.stats && (is_missing (subs account sess) && not (is_missing (subs [] sess)))
    then (if disk.made_account && disk.adopted
        then put_file [] sess missing (put_file account sess (subs [] sess) subs)
        else subs)
    else subs

unfoldable pub load_locked : SubsDisk → Text → Text → Subs → List Text × Subs
load_locked disk account sess subs =
    let left = adopt disk account sess subs in (read_subs_file (left account sess), left)

-- `true` is success, as everywhere below.
unfoldable pub save_locked : SubsDisk → Text → Text → List Text → Subs → Bool × Subs
save_locked disk account sess list subs =
    if disk.made_dir && (disk.wrote && disk.renamed)
    then (true, put_file account sess (holds (sort_strings list)) subs)
    else (false, subs)

unfoldable pub list : SubsDisk → Text → Text → Subs → List Text × Subs
list disk account sess subs = load_locked disk account (session sess) subs

-- The set of a slice, asked for a text.
unfoldable pub has_text : List Text → Text → Bool
has_text l s = any (λ t. text_eq t s) l

unfoldable pub add_subject : Text → List Text → List Text
add_subject subj cur =
    let s = trim_space subj in if text_eq s [] || has_text cur s then cur else cur ++ (s ∷ [])

-- The loop of `Add`. The set `have` holds what `cur` holds.
unfoldable pub add_subjects : List Text → List Text → List Text
add_subjects [] cur = cur
add_subjects (subj ∷ subjects) cur = add_subjects subjects (add_subject subj cur)

-- The list has changed exactly when it has grown.
unfoldable pub add : SubsDisk → Text → Text → List Text → Subs → Bool × Subs
add disk account sess subjects subs =
    let (cur, left) = load_locked disk account (session sess) subs in
    let grown = add_subjects subjects cur in
    if nat_eq (length grown) (length cur)
    then (true, left)
    else save_locked disk account (session sess) grown left

unfoldable pub remove : SubsDisk → Text → Text → List Text → Subs → Bool × Subs
remove disk account sess subjects subs =
    let (cur, left) = load_locked disk account (session sess) subs in
    let kept = filter (λ s. not (has_text subjects s)) cur in
    if nat_eq (length kept) (length cur)
    then (true, left)
    else save_locked disk account (session sess) kept left

unfoldable pub targets : Text → Text → Bool
targets handle subj = text_eq subj handle || has_prefix subj (handle ++ (b'.' ∷ []))

-- What `os.ReadDir` answers: the sessions that have a file, nothing, or an error.
pub data Listing : Type 0 where
  no_dir failed : Listing
  entries : List Text → Listing

module _ (wrote : Text → Text → Bool) (handle dir : Text) where
  -- The files of a directory, one after the other. `wrote` says which can be written.
  unfoldable pub sweep_entries : List Text → Subs → Bool × Subs
  sweep_entries [] subs = (true, subs)
  sweep_entries (sess ∷ more) subs =
      let cur = read_subs_file (subs dir sess) in
      let kept = filter (λ s. not (targets handle s)) cur in
      if nat_eq (length kept) (length cur)
      then sweep_entries more subs
      else if wrote dir sess
      then sweep_entries more (put_file dir sess (holds kept) subs)
      else (false, subs)

  unfoldable pub sweep_dir : Listing → Subs → Bool × Subs
  sweep_dir no_dir subs = (true, subs)
  sweep_dir failed subs = (false, subs)
  sweep_dir (entries names) subs = sweep_entries names subs

unfoldable pub sweep_handle :
    (Text → Text → Bool) → (Text → Listing) → Text → Text → Subs → Bool × Subs
sweep_handle wrote read_dir account handle subs =
    if text_eq handle []
    then (true, subs)
    else let (ok, left) = sweep_dir wrote handle account (read_dir account) subs in
      if not ok
      then (false, left)
      else if text_eq account []
      then (true, left)
      else sweep_dir wrote handle [] (read_dir []) left
