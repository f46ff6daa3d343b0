-- ===== src/DriverFramework/Device/ClassText.antt =====
-- src/driver_framework/device.rs: the readable names of PCI classes, as their bytes.
use Prim.Native.Char.{code}
use Prim.Native.String.{String}
use neutrix.Base.{ℕ, ◌+◌, ◌-◌, ◌/◌, ◌%◌, List, [], ◌∷◌, ◌++◌, ◌==◌, ltb, if◌then◌else◌}

abbrev pub codes : String → List ℕ
codes String.[] = []
codes (String.◌∷◌ c s) = code c ∷ codes s

-- `{:02x}` of a byte
abbrev pub hex_digit : ℕ → ℕ
hex_digit n = if ltb n 10 then b'0' + n else b'a' + (n - 10)

abbrev pub hex2 : ℕ → List ℕ
hex2 n = hex_digit (n / 16 % 16) ∷ hex_digit (n % 16) ∷ []

abbrev pub with_hex : String → ℕ → List ℕ
with_hex text n = codes text ++ hex2 n

abbrev pub ethernet_prog_if_to_str : ℕ → String
ethernet_prog_if_to_str prog_if =
    if prog_if == 0x00
    then "Ethernet: Ethernet controller"
    else (if prog_if == 0x01
        then "Ethernet: IEEE 802.3u (100BASE-TX)"
        else (if prog_if == 0x02
            then "Ethernet: IEEE 802.3ab (1000BASE-T)"
            else "Ethernet: other/prog-if"))

abbrev pub usb_prog_if_to_str : ℕ → String
usb_prog_if_to_str prog_if =
    if prog_if == 0x00
    then "USB: UHCI (Universal Host Controller)"
    else (if prog_if == 0x10
        then "USB: OHCI (Open Host Controller)"
        else (if prog_if == 0x20
            then "USB: EHCI (Enhanced Host Controller)"
            else (if prog_if == 0x30
                then "USB: XHCI (Extensible Host Controller)"
                else "USB: other/prog-if")))

-- The subclasses of each class that has names for them.
abbrev pub unclassified_text : ℕ → List ℕ
unclassified_text s =
    if s == 0x00
    then codes "Unclassified: Non-VGA-compatible device"
    else (if s == 0x01
        then codes "Unclassified: VGA-compatible device"
        else with_hex "Unclassified subclass 0x" s)

abbrev pub sata_text : (prog_if : ℕ) → List ℕ
sata_text prog_if =
    if prog_if == 0x00
    then codes "Mass Storage: SATA (vendor/legacy)"
    else (if prog_if == 0x01
        then codes "Mass Storage: SATA (AHCI)"
        else with_hex "Mass Storage: SATA prog-if 0x" prog_if)

abbrev pub storage_text : (s prog_if : ℕ) → List ℕ
storage_text s prog_if =
    if s == 0x00
    then codes "Mass Storage: SCSI"
    else (if s == 0x01
        then codes "Mass Storage: IDE"
        else (if s == 0x02
            then codes "Mass Storage: Floppy"
            else (if s == 0x06 then sata_text prog_if else with_hex "Mass Storage subclass 0x" s)))

abbrev pub network_text : (s prog_if : ℕ) → List ℕ
network_text s prog_if =
    if s == 0x00
    then codes (ethernet_prog_if_to_str prog_if)
    else (if s == 0x80 then codes "Network: Other" else with_hex "Network subclass 0x" s)

abbrev pub display_text : (s prog_if : ℕ) → List ℕ
display_text s prog_if =
    if s == 0x00
    then (if prog_if == 0x01
        then codes "Display: 3D controller (OpenGL)"
        else codes "Display: VGA-compatible controller")
    else (if s == 0x80 then codes "Display: Other" else with_hex "Display subclass 0x" s)

abbrev pub multimedia_text : ℕ → List ℕ
multimedia_text s =
    if s == 0x00
    then codes "Multimedia: Video"
    else (if s == 0x01 then codes "Multimedia: Audio" else with_hex "Multimedia subclass 0x" s)

abbrev pub bridge_text : ℕ → List ℕ
bridge_text s =
    if s == 0x00
    then codes "Bridge: Host"
    else (if s == 0x01
        then codes "Bridge: ISA"
        else (if s == 0x04 then codes "Bridge: PCI-to-PCI" else with_hex "Bridge subclass 0x" s))

abbrev pub serial_text : (s prog_if : ℕ) → List ℕ
serial_text s prog_if =
    if s == 0x03
    then codes (usb_prog_if_to_str prog_if)
    else (if s == 0x05 then codes "Serial Bus: SMBus" else with_hex "Serial Bus subclass 0x" s)

-- The classes from 7 on.
abbrev pub later_class_text : (class subclass prog_if : ℕ) → List ℕ
later_class_text class subclass prog_if =
    if class == 0x07
    then codes "Simple Communication Controller"
    else (if class == 0x08
        then codes "Base System Peripheral"
        else (if class == 0x09
            then codes "Input Device"
            else (if class == 0x0A
                then codes "Docking Station"
                else (if class == 0x0B
                    then codes "Processor"
                    else (if class == 0x0C
                        then serial_text subclass prog_if
                        else (if class == 0xFF
                            then codes "Unknown / Vendor-specific"
                            else with_hex "Class 0x" class ++ with_hex " subclass 0x" subclass))))))

unfoldable pub class_subclass_to_string : (class subclass prog_if : ℕ) → List ℕ
class_subclass_to_string class subclass prog_if =
    if class == 0x00
    then unclassified_text subclass
    else (if class == 0x01
        then storage_text subclass prog_if
        else (if class == 0x02
            then network_text subclass prog_if
            else (if class == 0x03
                then display_text subclass prog_if
                else (if class == 0x04
                    then multimedia_text subclass
                    else (if class == 0x05
                        then codes "Memory Controller"
                        else (if class == 0x06
                            then bridge_text subclass
                            else later_class_text class subclass prog_if))))))
