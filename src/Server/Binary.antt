-- ===== src/Server/Binary.antt =====
-- Finding the adb binary: `splitPath`, `adbBinaryCandidates` and `findAdbBinary`.
pub mod Candidates
use adb_wfx_plugin.Base.{
  ℕ, zero, suc, ◌+◌, Bool, true, false, ◌||◌, Option, none, some, List, [], ◌∷◌, ◌++◌, Bytes, codes,
  bytes_eq, is_empty, find, take, drop, length, if◌then◌else◌,
}

-- The loop from `start` on, which is given the rest of the text. Each round but the last passes a
-- colon.
unfoldable pub split_loop : ℕ → Bytes → List Bytes → List Bytes
split_loop zero rest elements = elements
split_loop (suc fuel) rest elements = elim (find b':' rest) [
  | none ↦ (if is_empty rest then elements else elements ++ rest ∷ [])
  | some colon ↦
      let element = take colon rest in
      split_loop fuel (drop (colon + 1) rest)
        (if is_empty element then elements else elements ++ element ∷ [])
]

unfoldable pub split_path : Bytes → List Bytes
unfolding split_loop
split_path path = split_loop (length path + 1) path []

unfoldable pub is_seen : List Bytes → Bytes → Bool
is_seen [] candidate = false
is_seen (s ∷ seen) candidate = bytes_eq s candidate || is_seen seen candidate

-- `addCandidate`, where `seen` and `candidates` are one list.
unfoldable pub add_candidate : List Bytes → Bytes → List Bytes
unfolding is_seen
add_candidate candidates candidate =
    if is_seen candidates candidate then candidates else candidates ++ candidate ∷ []

unfoldable pub add_all : List Bytes → List Bytes → List Bytes
unfolding add_candidate
add_all candidates [] = candidates
add_all candidates (c ∷ cs) = add_all (add_candidate candidates c) cs

-- The value of a variable, where it is set and not empty, with what is put behind it.
abbrev pub if_set : Option Bytes → Bytes → List Bytes
if_set none suffix = []
if_set (some value) suffix = if is_empty value then [] else (value ++ suffix) ∷ []

abbrev pub path_candidates : List Bytes → List Bytes
path_candidates [] = []
path_candidates (element ∷ elements) = (element ++ codes "/adb") ∷ path_candidates elements

abbrev pub from_path : Option Bytes → List Bytes
from_path none = []
from_path (some path) = path_candidates (split_path path)

module _ (get_env : Bytes → Option Bytes) where
  -- The arguments of `addCandidate`, in the order of the calls.
  unfoldable pub offered : List Bytes
  unfolding split_path
  offered =
      if_set (get_env (codes "ADB_PATH")) []
      ++ (from_path (get_env (codes "PATH"))
          ++ (if_set (get_env (codes "ANDROID_HOME")) (codes "/platform-tools/adb")
              ++ (if_set (get_env (codes "ANDROID_SDK_ROOT")) (codes "/platform-tools/adb")
                  ++ (codes "/opt/homebrew/share/android-commandlinetools/platform-tools/adb"
                      ∷ codes "/opt/homebrew/bin/adb"
                      ∷ codes "/usr/local/bin/adb"
                      ∷ (if_set (get_env (codes "HOME"))
                            (codes "/Library/Android/sdk/platform-tools/adb")
                          ++ (codes "/usr/local/share/android-commandlinetools/platform-tools/adb"
                              ∷ codes "/usr/bin/adb"
                              ∷ codes "/usr/lib/android-sdk/platform-tools/adb"
                              ∷ codes "/opt/android-sdk/platform-tools/adb"
                              ∷ (if_set (get_env (codes "HOME"))
                                    (codes "/Android/Sdk/platform-tools/adb")
                                  ++ codes "/snap/bin/adb" ∷ [])))))))

  unfoldable pub adb_binary_candidates : List Bytes
  unfolding offered add_all
  adb_binary_candidates = add_all [] offered

-- The loop of `findAdbBinary`; no bytes where no candidate is executable.
unfoldable pub first_executable : (Bytes → Bool) → List Bytes → Bytes
first_executable is_executable [] = []
first_executable is_executable (c ∷ candidates) =
    if is_executable c then c else first_executable is_executable candidates

unfoldable pub find_adb_binary : (Bytes → Option Bytes) → (Bytes → Bool) → Bytes
unfolding adb_binary_candidates first_executable
find_adb_binary get_env is_executable =
    first_executable is_executable (adb_binary_candidates get_env)
