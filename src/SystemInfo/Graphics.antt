-- ===== src/SystemInfo/Graphics.antt =====
-- The graphics device in /sys/class/drm.
use smooth_demon.Prelude.{
  ℕ, ◌+◌, Bool, not, ◌&&◌, ◌||◌, List, [], ◌∷◌, ◌++◌, map, Option, none, some, leb, if◌then◌else◌,
  drop,
}
use smooth_demon.Text.{Text, File, codes, starts_with, text_eq, is_empty, is_space, skip_while}
use smooth_demon.Text.Number.{take_while}
use smooth_demon.SystemInfo.Strings.{is_card_dir_name}

-- An entry, with its files device/vendor and device/device; `none` where a file is missing.
pub record Card : Type 0 where
  pub name : Text
  pub vendor : File
  pub device : File

-- `f >> word`, where nothing is read if the file cannot be opened.
read_word : File → Text
read_word none = []
read_word (some text) = take_while (λ c. not (is_space c)) (skip_while is_space text)

-- The vendor and the device of the first card with a vendor file.
unfoldable pub first_card : List Card → Text × Text
unfolding read_word
first_card [] = ([], [])
first_card (card ∷ cards) =
    let rest = first_card cards in
    elim card.vendor [
      | none ↦ rest
      | some text ↦
          if is_card_dir_name card.name
          then (read_word (some text), read_word card.device)
          else rest
    ]

to_lower : ℕ → ℕ
to_lower c = if leb b'A' c && leb c b'Z' then c + 32 else c

-- Without "0x", in small letters.
unfoldable pub normalize : Text → Text
unfolding to_lower
normalize s = map to_lower (if starts_with (codes "0x") s then drop 2 s else s)

one_of : Text → Text → Text → Bool
one_of a b s = text_eq s a || text_eq s b

-- The model of an Intel device.
intel_model : Text → Text
unfolding one_of
intel_model device =
    if one_of (codes "5906") (codes "5902") device
    then codes "Intel HD Graphics 610 (Kaby Lake GT1)"
    else if one_of (codes "5916") (codes "5917") device
    then codes "Intel HD Graphics 615 (Kaby Lake GT2)"
    else if one_of (codes "5926") (codes "5927") device
    then codes "Intel Iris Plus Graphics 640/650 (Kaby Lake GT3)"
    else if one_of (codes "591b") (codes "591d") device
    then codes "Intel HD Graphics 620 (Kaby Lake GT2)"
    else codes "Intel Integrated Graphics (device " ++ (device ++ codes ")")

-- The model and the PCI id of the vendor and device that have been read.
unfoldable pub describe_card : Text × Text → Text × Text
unfolding normalize intel_model
describe_card (vendor_word, device_word) =
    let vendor = normalize vendor_word in
    let device = normalize device_word in
    let pci_id = vendor ++ (codes ":" ++ device) in
    if is_empty vendor_word then (codes "Not Detected", codes "unknown") else (
      if text_eq vendor (codes "8086")
          then intel_model device
          else codes "Unknown GPU (" ++ (pci_id ++ codes ")"),
      pci_id,
    )

-- `none` where /sys/class/drm does not exist.
unfoldable pub parse_gpu_info : Option (List Card) → Text × Text
unfolding first_card describe_card
parse_gpu_info none = (codes "Not Detected", codes "unknown")
parse_gpu_info (some cards) = describe_card (first_card cards)
