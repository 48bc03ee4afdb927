-- ===== src/Paths.antt =====
-- whatsapp-daemon/internal/paths/paths.go, and the default paths of the other packages. Join and
-- Clean are those of path/filepath on Unix, which work on the text of a path alone: a path is read
-- from left to right, with the elements that are left so far, the last one first.
pub mod State
use wa_agent_pipeline.Base.{
  ℕ, Text, Bool, true, false, ◌&&◌, ◌||◌, List, [], ◌∷◌, ◌++◌, ◌==◌, text_eq, nat_eq, if◌then◌else◌,
}
use wa_agent_pipeline.Texts.{text, trim_space, split, has_prefix}

abbrev pub slash : ℕ
slash = b'/'

abbrev up : Bool → List Text → List Text
up rooted [] = if rooted then [] else text ".." ∷ []
up rooted (top ∷ rest) = if top == text ".." then text ".." ∷ top ∷ rest else rest

abbrev pub push : Bool → List Text → Text → List Text
push rooted stack element =
    if element == [] || element == text "."
    then stack
    else if element == text ".."
    then up rooted stack
    else element ∷ stack

unfoldable pub descend : Bool → List Text → List Text → List Text
descend rooted stack [] = stack
descend rooted stack (element ∷ rest) = descend rooted (push rooted stack element) rest

unfoldable pub path_of : List Text → Text
path_of [] = []
path_of (element ∷ []) = element
path_of (element ∷ above ∷ rest) = path_of (above ∷ rest) ++ slash ∷ element

abbrev pub is_rooted : Text → Bool
is_rooted [] = false
is_rooted (c ∷ _) = c == slash

abbrev or_dot : Text → Text
or_dot [] = text "."
or_dot (c ∷ s) = c ∷ s

-- filepath.Clean
unfoldable pub clean : Text → Text
unfolding descend path_of
clean path =
    let body = path_of (descend (is_rooted path) [] (split slash path)) in
    if is_rooted path then slash ∷ body else or_dot body

abbrev joined : Text → List Text → Text
joined s [] = s
joined s (t ∷ rest) = s ++ slash ∷ joined t rest

-- filepath.Join, which passes over the empty elements at the start.
unfoldable pub join_paths : List Text → Text
unfolding clean
join_paths [] = []
join_paths ([] ∷ rest) = join_paths rest
join_paths ((c ∷ s) ∷ rest) = clean (joined (c ∷ s) rest)

-- strings.TrimPrefix(value, "~/")
abbrev past_home : Text → Text
past_home (_ ∷ _ ∷ rest) = rest
past_home s = []

unfoldable pub clean_root : Text → Text → Text
unfolding clean join_paths
clean_root value home =
    if value == text "~"
    then home
    else if has_prefix (text "~/") value
    then join_paths (home ∷ past_home value ∷ [])
    else clean value

-- `Root`: the first argument is the value of WA_AGENT_PIPELINE_HOME, which is empty where it is not set.
unfoldable pub root : Text → Text → Text
unfolding clean_root join_paths
root env home =
    let value = trim_space env in
    if value == [] then join_paths (home ∷ text "wa-agent-pipeline" ∷ []) else clean_root value home

unfoldable pub default_db : Text → Text
unfolding join_paths
default_db root = join_paths (root ∷ text "db" ∷ text "wa_pipeline.db" ∷ [])

-- config.DefaultPath
unfoldable pub default_config : Text → Text → Text
unfolding root join_paths
default_config env home =
    join_paths (root env home ∷ text "config" ∷ text "whatsapp_groups.json" ∷ [])

-- control.DefaultSocketPath
unfoldable pub default_socket_path : Text → Text → Text
unfolding root join_paths
default_socket_path env home =
    join_paths (root env home ∷ text "whatsapp-daemon" ∷ text "control.sock" ∷ [])

-- unseen.DefaultStatePath
unfoldable pub default_state_path : Text → Text → Text
unfolding join_paths
default_state_path root tenant =
    join_paths (root ∷ text "state" ∷ (text "whatsapp_seen_ts." ++ tenant) ∷ [])
