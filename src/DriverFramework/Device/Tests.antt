-- ===== src/DriverFramework/Device/Tests.antt =====
-- src/driver_framework/device.rs: names of classes.
use neutrix.Base.{◌≡◌, refl}
use neutrix.DriverFramework.Device.ClassText.{class_subclass_to_string, codes}

sata : class_subclass_to_string 1 6 0x2F ≡ codes "Mass Storage: SATA prog-if 0x2f"
unfolding class_subclass_to_string
sata = refl

unknown : class_subclass_to_string 0x11 0x80 0 ≡ codes "Class 0x11 subclass 0x80"
unfolding class_subclass_to_string
unknown = refl
