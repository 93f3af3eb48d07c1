-- ===== src/Drm/Cea/High.antt =====
-- `msdisp_edid_cea_modes_193`, drm/msdisp_drm_mode.c.
use lenovo_magicbay_hud_linu.Base.{List, [], ◌∷◌}
use lenovo_magicbay_hud_linu.Drm.Cea.Row.{
  CeaMode, cea, phsync, pvsync, ratio_16_9, ratio_64_27, ratio_256_135,
}

-- VICs 193 to 219
unfoldable pub cea_modes_193 : List CeaMode
cea_modes_193 =
    cea 1485000 5120 5284 5372 5500 2160 2168 2178 2250 (phsync ∷ pvsync ∷ []) ratio_64_27
    ∷ cea 1188000 7680 10232 10408 11000 4320 4336 4356 4500 (phsync ∷ pvsync ∷ []) ratio_16_9
    ∷ cea 1188000 7680 10032 10208 10800 4320 4336 4356 4400 (phsync ∷ pvsync ∷ []) ratio_16_9
    ∷ cea 1188000 7680 8232 8408 9000 4320 4336 4356 4400 (phsync ∷ pvsync ∷ []) ratio_16_9
    ∷ cea 2376000 7680 10232 10408 11000 4320 4336 4356 4500 (phsync ∷ pvsync ∷ []) ratio_16_9
    ∷ cea 2376000 7680 10032 10208 10800 4320 4336 4356 4400 (phsync ∷ pvsync ∷ []) ratio_16_9
    ∷ cea 2376000 7680 8232 8408 9000 4320 4336 4356 4400 (phsync ∷ pvsync ∷ []) ratio_16_9
    ∷ cea 4752000 7680 9792 9968 10560 4320 4336 4356 4500 (phsync ∷ pvsync ∷ []) ratio_16_9
    ∷ cea 4752000 7680 8032 8208 8800 4320 4336 4356 4500 (phsync ∷ pvsync ∷ []) ratio_16_9
    ∷ cea 1188000 7680 10232 10408 11000 4320 4336 4356 4500 (phsync ∷ pvsync ∷ []) ratio_64_27
    ∷ cea 1188000 7680 10032 10208 10800 4320 4336 4356 4400 (phsync ∷ pvsync ∷ []) ratio_64_27
    ∷ cea 1188000 7680 8232 8408 9000 4320 4336 4356 4400 (phsync ∷ pvsync ∷ []) ratio_64_27
    ∷ cea 2376000 7680 10232 10408 11000 4320 4336 4356 4500 (phsync ∷ pvsync ∷ []) ratio_64_27
    ∷ cea 2376000 7680 10032 10208 10800 4320 4336 4356 4400 (phsync ∷ pvsync ∷ []) ratio_64_27
    ∷ cea 2376000 7680 8232 8408 9000 4320 4336 4356 4400 (phsync ∷ pvsync ∷ []) ratio_64_27
    ∷ cea 4752000 7680 9792 9968 10560 4320 4336 4356 4500 (phsync ∷ pvsync ∷ []) ratio_64_27
    ∷ cea 4752000 7680 8032 8208 8800 4320 4336 4356 4500 (phsync ∷ pvsync ∷ []) ratio_64_27
    ∷ cea 1485000 10240 11732 11908 12500 4320 4336 4356 4950 (phsync ∷ pvsync ∷ []) ratio_64_27
    ∷ cea 1485000 10240 12732 12908 13500 4320 4336 4356 4400 (phsync ∷ pvsync ∷ []) ratio_64_27
    ∷ cea 1485000 10240 10528 10704 11000 4320 4336 4356 4500 (phsync ∷ pvsync ∷ []) ratio_64_27
    ∷ cea 2970000 10240 11732 11908 12500 4320 4336 4356 4950 (phsync ∷ pvsync ∷ []) ratio_64_27
    ∷ cea 2970000 10240 12732 12908 13500 4320 4336 4356 4400 (phsync ∷ pvsync ∷ []) ratio_64_27
    ∷ cea 2970000 10240 10528 10704 11000 4320 4336 4356 4500 (phsync ∷ pvsync ∷ []) ratio_64_27
    ∷ cea 5940000 10240 12432 12608 13200 4320 4336 4356 4500 (phsync ∷ pvsync ∷ []) ratio_64_27
    ∷ cea 5940000 10240 10528 10704 11000 4320 4336 4356 4500 (phsync ∷ pvsync ∷ []) ratio_64_27
    ∷ cea 1188000 4096 4896 4984 5280 2160 2168 2178 2250 (phsync ∷ pvsync ∷ []) ratio_256_135
    ∷ cea 1188000 4096 4184 4272 4400 2160 2168 2178 2250 (phsync ∷ pvsync ∷ []) ratio_256_135
    ∷ []
