-- ===== src/Encode/Capabilities.antt =====
-- src/encode/private/capabilities.cpp: choosing the render node. What the system and libavcodec
-- answer of a node is an argument.
pub mod Choice
use klip.Base.{
  ℕ, zero, suc, ◌+◌, Bool, true, false, not, ◌&&◌, ◌||◌, List, [], ◌∷◌, ◌++◌, Bytes, codes, decimal,
  is_empty, ltb, if◌then◌else◌,
}
use klip.Encode.Format.{Codec, all_codecs}

-- An array of booleans indexed by the codec.
abbrev pub Encodes : Type 0
Encodes = Codec → Bool

abbrev pub no_codecs : Encodes
no_codecs codec = false

pub record Capabilities : Type 0 where
  pub device_path : Bytes
  pub encodes : Encodes

pub record NodeProbe : Type 0 where
  pub encodes : Encodes
  pub opened : Bool

-- What `access`, `av_hwdevice_ctx_create`, `MakeProbeFrames` and `CanEncode` answer of a node.
pub record Card : Type 0 where
  pub accessible : Bool
  pub opens : Bool
  pub makes_frames : Bool
  pub can_encode : Encodes

abbrev pub probe_node : Card → NodeProbe
probe_node card =
    if card.opens
    then record {
      opened = true;
      encodes = if card.makes_frames then card.can_encode else no_codecs;
    }
    else record { opened = false; encodes = no_codecs }

-- `std::ranges::count(encodes, true)`.
unfoldable pub count_codecs : Encodes → ℕ
count_codecs encodes = count all_codecs
  where
    count : List Codec → ℕ
    count [] = 0
    count (codec ∷ rest) = (if encodes codec then 1 else 0) + count rest

-- The variables of the loop of `InitializeCapabilities`.
pub record Search : Type 0 where
  pub best_codecs : ℕ
  pub found : Capabilities

abbrev pub node_path : ℕ → Bytes
node_path node = codes "/dev/dri/renderD" ++ decimal node

unfoldable pub consider : Search → ℕ → NodeProbe → Search
consider s node probe =
    let num_codecs = count_codecs probe.encodes in
    let is_better =
      ltb s.best_codecs num_codecs || (probe.opened && is_empty s.found.device_path) in
    if is_better
    then record {
      best_codecs = num_codecs;
      found = record { device_path = node_path node; encodes = probe.encodes };
    }
    else s

-- The loop from `node` over `rounds` nodes.
unfoldable pub search_nodes : (ℕ → Card) → ℕ → ℕ → Search → Search
search_nodes card zero node s = s
search_nodes card (suc rounds) node s =
    search_nodes card rounds (node + 1)
      (if (card node).accessible then consider s node (probe_node (card node)) else s)

abbrev pub first_render_node : ℕ
first_render_node = 128

-- `LastRenderNode - FirstRenderNode`.
abbrev pub num_render_nodes : ℕ
num_render_nodes = 8

abbrev no_search : Search
no_search = record { best_codecs = 0; found = record { device_path = []; encodes = no_codecs } }

unfoldable pub initialize_capabilities : (ℕ → Card) → Capabilities
initialize_capabilities card =
    (search_nodes card num_render_nodes first_render_node no_search).found

-- The loop of `IsCodecOffered`.
abbrev pub any_encodes : Encodes → List Codec → Bool
any_encodes encodes [] = false
any_encodes encodes (codec ∷ rest) = encodes codec || any_encodes encodes rest

unfoldable pub is_codec_offered : Capabilities → Codec → Bool
is_codec_offered capabilities codec =
    not (any_encodes capabilities.encodes all_codecs) || capabilities.encodes codec
