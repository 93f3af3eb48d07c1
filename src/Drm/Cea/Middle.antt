-- ===== src/Drm/Cea/Middle.antt =====
-- The second half of `msdisp_edid_cea_modes_1`, drm/msdisp_drm_mode.c.
use lenovo_magicbay_hud_linu.Base.{List, [], ◌∷◌}
use lenovo_magicbay_hud_linu.Drm.Cea.Row.{
  CeaMode, cea, phsync, pvsync, ratio_16_9, ratio_64_27, ratio_256_135,
}

-- VICs 65 to 96
unfoldable pub cea_modes_65 : List CeaMode
cea_modes_65 =
    cea 59400 1280 3040 3080 3300 720 725 730 750 (phsync ∷ pvsync ∷ []) ratio_64_27
    ∷ cea 74250 1280 3700 3740 3960 720 725 730 750 (phsync ∷ pvsync ∷ []) ratio_64_27
    ∷ cea 74250 1280 3040 3080 3300 720 725 730 750 (phsync ∷ pvsync ∷ []) ratio_64_27
    ∷ cea 74250 1280 1720 1760 1980 720 725 730 750 (phsync ∷ pvsync ∷ []) ratio_64_27
    ∷ cea 74250 1280 1390 1430 1650 720 725 730 750 (phsync ∷ pvsync ∷ []) ratio_64_27
    ∷ cea 148500 1280 1720 1760 1980 720 725 730 750 (phsync ∷ pvsync ∷ []) ratio_64_27
    ∷ cea 148500 1280 1390 1430 1650 720 725 730 750 (phsync ∷ pvsync ∷ []) ratio_64_27
    ∷ cea 74250 1920 2558 2602 2750 1080 1084 1089 1125 (phsync ∷ pvsync ∷ []) ratio_64_27
    ∷ cea 74250 1920 2448 2492 2640 1080 1084 1089 1125 (phsync ∷ pvsync ∷ []) ratio_64_27
    ∷ cea 74250 1920 2008 2052 2200 1080 1084 1089 1125 (phsync ∷ pvsync ∷ []) ratio_64_27
    ∷ cea 148500 1920 2448 2492 2640 1080 1084 1089 1125 (phsync ∷ pvsync ∷ []) ratio_64_27
    ∷ cea 148500 1920 2008 2052 2200 1080 1084 1089 1125 (phsync ∷ pvsync ∷ []) ratio_64_27
    ∷ cea 297000 1920 2448 2492 2640 1080 1084 1089 1125 (phsync ∷ pvsync ∷ []) ratio_64_27
    ∷ cea 297000 1920 2008 2052 2200 1080 1084 1089 1125 (phsync ∷ pvsync ∷ []) ratio_64_27
    ∷ cea 59400 1680 3040 3080 3300 720 725 730 750 (phsync ∷ pvsync ∷ []) ratio_64_27
    ∷ cea 59400 1680 2908 2948 3168 720 725 730 750 (phsync ∷ pvsync ∷ []) ratio_64_27
    ∷ cea 59400 1680 2380 2420 2640 720 725 730 750 (phsync ∷ pvsync ∷ []) ratio_64_27
    ∷ cea 82500 1680 1940 1980 2200 720 725 730 750 (phsync ∷ pvsync ∷ []) ratio_64_27
    ∷ cea 99000 1680 1940 1980 2200 720 725 730 750 (phsync ∷ pvsync ∷ []) ratio_64_27
    ∷ cea 165000 1680 1740 1780 2000 720 725 730 825 (phsync ∷ pvsync ∷ []) ratio_64_27
    ∷ cea 198000 1680 1740 1780 2000 720 725 730 825 (phsync ∷ pvsync ∷ []) ratio_64_27
    ∷ cea 99000 2560 3558 3602 3750 1080 1084 1089 1100 (phsync ∷ pvsync ∷ []) ratio_64_27
    ∷ cea 90000 2560 3008 3052 3200 1080 1084 1089 1125 (phsync ∷ pvsync ∷ []) ratio_64_27
    ∷ cea 118800 2560 3328 3372 3520 1080 1084 1089 1125 (phsync ∷ pvsync ∷ []) ratio_64_27
    ∷ cea 185625 2560 3108 3152 3300 1080 1084 1089 1125 (phsync ∷ pvsync ∷ []) ratio_64_27
    ∷ cea 198000 2560 2808 2852 3000 1080 1084 1089 1100 (phsync ∷ pvsync ∷ []) ratio_64_27
    ∷ cea 371250 2560 2778 2822 2970 1080 1084 1089 1250 (phsync ∷ pvsync ∷ []) ratio_64_27
    ∷ cea 495000 2560 3108 3152 3300 1080 1084 1089 1250 (phsync ∷ pvsync ∷ []) ratio_64_27
    ∷ cea 297000 3840 5116 5204 5500 2160 2168 2178 2250 (phsync ∷ pvsync ∷ []) ratio_16_9
    ∷ cea 297000 3840 4896 4984 5280 2160 2168 2178 2250 (phsync ∷ pvsync ∷ []) ratio_16_9
    ∷ cea 297000 3840 4016 4104 4400 2160 2168 2178 2250 (phsync ∷ pvsync ∷ []) ratio_16_9
    ∷ cea 594000 3840 4896 4984 5280 2160 2168 2178 2250 (phsync ∷ pvsync ∷ []) ratio_16_9
    ∷ []

-- VICs 97 to 127
unfoldable pub cea_modes_97 : List CeaMode
cea_modes_97 =
    cea 594000 3840 4016 4104 4400 2160 2168 2178 2250 (phsync ∷ pvsync ∷ []) ratio_16_9
    ∷ cea 297000 4096 5116 5204 5500 2160 2168 2178 2250 (phsync ∷ pvsync ∷ []) ratio_256_135
    ∷ cea 297000 4096 5064 5152 5280 2160 2168 2178 2250 (phsync ∷ pvsync ∷ []) ratio_256_135
    ∷ cea 297000 4096 4184 4272 4400 2160 2168 2178 2250 (phsync ∷ pvsync ∷ []) ratio_256_135
    ∷ cea 594000 4096 5064 5152 5280 2160 2168 2178 2250 (phsync ∷ pvsync ∷ []) ratio_256_135
    ∷ cea 594000 4096 4184 4272 4400 2160 2168 2178 2250 (phsync ∷ pvsync ∷ []) ratio_256_135
    ∷ cea 297000 3840 5116 5204 5500 2160 2168 2178 2250 (phsync ∷ pvsync ∷ []) ratio_64_27
    ∷ cea 297000 3840 4896 4984 5280 2160 2168 2178 2250 (phsync ∷ pvsync ∷ []) ratio_64_27
    ∷ cea 297000 3840 4016 4104 4400 2160 2168 2178 2250 (phsync ∷ pvsync ∷ []) ratio_64_27
    ∷ cea 594000 3840 4896 4984 5280 2160 2168 2178 2250 (phsync ∷ pvsync ∷ []) ratio_64_27
    ∷ cea 594000 3840 4016 4104 4400 2160 2168 2178 2250 (phsync ∷ pvsync ∷ []) ratio_64_27
    ∷ cea 90000 1280 2240 2280 2500 720 725 730 750 (phsync ∷ pvsync ∷ []) ratio_16_9
    ∷ cea 90000 1280 2240 2280 2500 720 725 730 750 (phsync ∷ pvsync ∷ []) ratio_64_27
    ∷ cea 99000 1680 2490 2530 2750 720 725 730 750 (phsync ∷ pvsync ∷ []) ratio_64_27
    ∷ cea 148500 1920 2558 2602 2750 1080 1084 1089 1125 (phsync ∷ pvsync ∷ []) ratio_16_9
    ∷ cea 148500 1920 2558 2602 2750 1080 1084 1089 1125 (phsync ∷ pvsync ∷ []) ratio_64_27
    ∷ cea 198000 2560 3558 3602 3750 1080 1084 1089 1100 (phsync ∷ pvsync ∷ []) ratio_64_27
    ∷ cea 594000 3840 5116 5204 5500 2160 2168 2178 2250 (phsync ∷ pvsync ∷ []) ratio_16_9
    ∷ cea 594000 4096 5116 5204 5500 2160 2168 2178 2250 (phsync ∷ pvsync ∷ []) ratio_256_135
    ∷ cea 594000 3840 5116 5204 5500 2160 2168 2178 2250 (phsync ∷ pvsync ∷ []) ratio_64_27
    ∷ cea 1188000 3840 4896 4984 5280 2160 2168 2178 2250 (phsync ∷ pvsync ∷ []) ratio_16_9
    ∷ cea 1188000 3840 4016 4104 4400 2160 2168 2178 2250 (phsync ∷ pvsync ∷ []) ratio_16_9
    ∷ cea 1188000 3840 4896 4984 5280 2160 2168 2178 2250 (phsync ∷ pvsync ∷ []) ratio_64_27
    ∷ cea 1188000 3840 4016 4104 4400 2160 2168 2178 2250 (phsync ∷ pvsync ∷ []) ratio_64_27
    ∷ cea 396000 5120 7116 7204 7500 2160 2168 2178 2200 (phsync ∷ pvsync ∷ []) ratio_64_27
    ∷ cea 396000 5120 6816 6904 7200 2160 2168 2178 2200 (phsync ∷ pvsync ∷ []) ratio_64_27
    ∷ cea 396000 5120 5784 5872 6000 2160 2168 2178 2200 (phsync ∷ pvsync ∷ []) ratio_64_27
    ∷ cea 742500 5120 5866 5954 6250 2160 2168 2178 2475 (phsync ∷ pvsync ∷ []) ratio_64_27
    ∷ cea 742500 5120 6216 6304 6600 2160 2168 2178 2250 (phsync ∷ pvsync ∷ []) ratio_64_27
    ∷ cea 742500 5120 5284 5372 5500 2160 2168 2178 2250 (phsync ∷ pvsync ∷ []) ratio_64_27
    ∷ cea 1485000 5120 6216 6304 6600 2160 2168 2178 2250 (phsync ∷ pvsync ∷ []) ratio_64_27
    ∷ []
